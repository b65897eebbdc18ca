-- ===== src/Base/Table/Order.antt =====
-- ORDER BY ... LIMIT 1: the first row of the sorted table is a least row.
use mathlib.Core.Path.{◌≡◌, refl, ap, ◌∙◌}
use mathlib.Core.Logic.{inl, inr}
use mathlib.Core.Bool.{Bool, true, false}
use mathlib.Core.List.{List, [], ◌∷◌, Memᴰ}
use mathlib.Core.Option.{none, some}
use native.Mathlib.Omega.{arith}
use comfy_ui_account_manager.Base.Tests.{Bool-cases}
use comfy_ui_account_manager.Base.Lists.{head?}
use comfy_ui_account_manager.Base.Table.{select, insert_by, order_by}
use comfy_ui_account_manager.Base.Table.Members.{mem-select, select-mem, mem-order_by, order_by-mem}

-- A strict weak order, given by its test.
pub record IsOrder {ℓ} {A : Type ℓ} (before : A → A → Bool) : Type ℓ where
  pub irrefl : (a : A) → before a a ≡ false
  pub asym : (a b : A) → before a b ≡ true → before b a ≡ false
  pub cotrans : (a b c : A) → before a b ≡ false → before b c ≡ false → before a c ≡ false

-- No row comes before `h`.
abbrev pub IsLeast {ℓ} : {A : Type ℓ} → (A → A → Bool) → A → List A → Type ℓ
IsLeast {A = A} before h xs = (y : A) → Memᴰ y xs → before y h ≡ false

module _ {ℓ} {A : Type ℓ} {before : A → A → Bool} (order : IsOrder before) where
  open order use {irrefl, asym, cotrans}

  insert_by-IsLeast :
      {h : A} (a : A) (xs : List A)
      → ((g : A) → head? xs ≡ some g → IsLeast before g xs)
      → head? (insert_by before a xs) ≡ some h
      → (before a h ≡ false) × IsLeast before h xs
  unfolding insert_by
  insert_by-IsLeast a [] least e = (ground (arith, irrefl a), λ y m. elim m [ ])
  insert_by-IsLeast {h} a (x ∷ xs) least e = elim (Bool-cases (before x a)) [
    | inl t ↦
        let same : x ≡ h = ground arith in (rw (← same) (asym x a t), rw (← same) (least x refl))
    | inr n ↦
        let same : a ≡ h = ground arith in
        (rw (← same) (irrefl a), λ y m. rw (← same) (cotrans y x a (least x refl y m) n))
  ]

  pub order_by-IsLeast :
      (xs : List A) {h : A} → head? (order_by before xs) ≡ some h → IsLeast before h xs
  unfolding order_by
  order_by-IsLeast [] e = λ y m. elim m [ ]
  order_by-IsLeast (x ∷ xs) {h} e =
      let found =
        insert_by-IsLeast x (order_by before xs)
          (λ g e' y m. order_by-IsLeast xs {h = g} e' y (mem-order_by before xs m)) e in
      all found.0 (λ y m. found.1 y (order_by-mem before xs m))
    where
      all : before x h ≡ false → IsLeast before h xs → IsLeast before h (x ∷ xs)
      all hx hxs y (Memᴰ.head p) = ap (λ z. before z h) p ∙ hx
      all hx hxs y (Memᴰ.tail m) = hxs y m

head?-mem {ℓ} : {A : Type ℓ} {h : A} (xs : List A) → head? xs ≡ some h → Memᴰ h xs
head?-mem [] e = ground arith
head?-mem (x ∷ xs) e = Memᴰ.head (ground arith)

not-mem_of_head?-none {ℓ} : {A : Type ℓ} {y : A} (xs : List A) → head? xs ≡ none → ¬ Memᴰ y xs
not-mem_of_head?-none [] e m = elim m [ ]
not-mem_of_head?-none (x ∷ xs) e m = ground arith

module _ {ℓ} {A : Type ℓ} (before : A → A → Bool) (p : A → Bool) (xs : List A) where
  -- The row of SELECT ... WHERE p ORDER BY ... LIMIT 1 has `p`.
  pub first-mem :
      {h : A} → head? (order_by before (select p xs)) ≡ some h → Memᴰ h xs × (p h ≡ true)
  first-mem e = mem-select p xs (mem-order_by before (select p xs) (head?-mem _ e))

  -- Without a row there is none with `p`.
  pub first-none : {y : A} → head? (order_by before (select p xs)) ≡ none → Memᴰ y xs → p y ≡ false
  first-none {y} e m = elim (Bool-cases (p y)) [
    | inl t ↦
        absurd (not-mem_of_head?-none _ e (order_by-mem before (select p xs) (select-mem p xs m t)))
    | inr n ↦ n
  ]
