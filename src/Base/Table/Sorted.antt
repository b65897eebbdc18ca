-- ===== src/Base/Table/Sorted.antt =====
-- ORDER BY as a whole: it keeps the rows and sorts them.
use Prim.Native.Nat.{◌+◌}
use mathlib.Core.Path.{◌≡◌, refl, subst}
use mathlib.Core.Logic.{inl, inr}
use mathlib.Core.Bool.{Bool, true, false, ◌&&◌}
use mathlib.Core.List.{List, [], ◌∷◌, Memᴰ}
use mathlib.Core.Option.{Option, none, some}
use native.Mathlib.Omega.{arith}
use comfy_ui_account_manager.Base.Tests.{Bool-cases, if◌then◌else◌}
use comfy_ui_account_manager.Base.Lists.{head?}
use comfy_ui_account_manager.Base.Table.{one_if, select, count, insert_by, order_by}
use comfy_ui_account_manager.Base.Table.Members.{mem-select, mem-insert_by}
use comfy_ui_account_manager.Base.Table.Order.{IsOrder}

-- Each row is related to all later ones.
abbrev pub IsSorted : {A : Type 0} → (A → A → Type 0) → List A → Type 0
IsSorted R [] = Unit
IsSorted {A} R (x ∷ xs) = ((y : A) → Memᴰ y xs → R x y) × IsSorted R xs

module _ {ℓ} {A : Type ℓ} (before : A → A → Bool) where
  count-insert_by :
      (q : A → Bool) (a : A) (xs : List A)
      → count q (insert_by before a xs) ≡ one_if (q a) + count q xs
  unfolding count insert_by
  count-insert_by q a [] = refl
  count-insert_by q a (x ∷ xs) = ground (arith, count-insert_by q a xs)

  pub count-order_by : (q : A → Bool) (xs : List A) → count q (order_by before xs) ≡ count q xs
  unfolding count order_by
  count-order_by q [] = refl
  count-order_by q (x ∷ xs) =
      ground (arith, count-insert_by q x (order_by before xs), count-order_by q xs)

module _ {ℓ} {A : Type ℓ} where
  pub count_ext : (p q : A → Bool) (xs : List A) → ((x : A) → p x ≡ q x) → count p xs ≡ count q xs
  unfolding count
  count_ext p q [] h = refl
  count_ext p q (x ∷ xs) h = ground (arith, h x, count_ext p q xs h)

  pub count-select :
      (q p : A → Bool) (xs : List A) → count q (select p xs) ≡ count (λ x. p x && q x) xs
  unfolding count select
  count-select q p [] = refl
  count-select q p (x ∷ xs) = ground (arith, count-select q p xs)

module _ {A : Type 0} where
  pub select-IsSorted :
      (R : A → A → Type 0) (p : A → Bool) (xs : List A) → IsSorted R xs → IsSorted R (select p xs)
  unfolding select
  select-IsSorted R p [] s = tt
  select-IsSorted R p (x ∷ xs) s = elim (Bool-cases (p x)) [
    | inl t ↦ rw t (λ y m. s.0 y (mem-select p xs m).0, select-IsSorted R p xs s.1)
    | inr n ↦ rw n (select-IsSorted R p xs s.1)
  ]

  IsSorted-map :
      {R S : A → A → Type 0}
      → ((a b : A) → S a b → R a b)
      → (xs : List A) → IsSorted S xs
      → IsSorted R xs
  IsSorted-map f [] s = tt
  IsSorted-map f (x ∷ xs) s = (λ y m. f x y (s.0 y m), IsSorted-map f xs s.1)

-- No row comes before an earlier one.
abbrev IsAfter : {A : Type 0} → (A → A → Bool) → A → A → Type 0
IsAfter before a b = before b a ≡ false

module _ {A : Type 0} {before : A → A → Bool} (order : IsOrder before) where
  open order use {asym, cotrans}

  insert_by-IsSorted :
      (a : A) (xs : List A)
      → IsSorted (IsAfter before) xs
      → IsSorted (IsAfter before) (insert_by before a xs)
  unfolding insert_by
  insert_by-IsSorted a [] s = (λ y m. elim m [ ], tt)
  insert_by-IsSorted a (x ∷ xs) s = elim (Bool-cases (before x a)) [
    | inl t ↦ rw t (
      λ y m. elim (mem-insert_by before a xs m) [ inl e ↦ rw e (asym x a t) | inr old ↦ s.0 y old ],
      insert_by-IsSorted a xs s.1,
    )
    | inr n ↦
        rw n
          (λ y m. elim m [ Memᴰ.head e ↦ rw e n | Memᴰ.tail old ↦ cotrans y x a (s.0 y old) n ], s)
  ]

  IsAfter-IsSorted : (xs : List A) → IsSorted (IsAfter before) (order_by before xs)
  unfolding order_by
  IsAfter-IsSorted [] = tt
  IsAfter-IsSorted (x ∷ xs) = insert_by-IsSorted x (order_by before xs) (IsAfter-IsSorted xs)

  -- The sorted table is sorted by what the order's test stands for.
  pub order_by-IsSorted :
      {R : A → A → Type 0}
      → ((a b : A) → before b a ≡ false → R a b)
      → (xs : List A) → IsSorted R (order_by before xs)
  order_by-IsSorted related xs = IsSorted-map related (order_by before xs) (IsAfter-IsSorted xs)

-- The first row stays the first where more rows are selected that all come after the others.
module _ {A : Type 0} (before : A → A → Bool) (p q : A → Bool)
    (wider : (a : A) → p a ≡ true → q a ≡ true)
    (later : (a b : A) → p a ≡ true → q b ≡ true → p b ≡ false → before a b ≡ true)
    (asym : (a b : A) → before a b ≡ true → before b a ≡ false) where
  abbrev pick : A → Option A → Option A
  pick x none = some x
  pick x (some g) = if before g x then some g else some x

  head?-insert_by : (x : A) (xs : List A) → head? (insert_by before x xs) ≡ pick x (head? xs)
  unfolding insert_by
  head?-insert_by x [] = refl
  head?-insert_by x (y ∷ xs) = ground arith

  abbrev Leads : Option A → Option A → Type 0
  Leads (some g) o = (o ≡ some g) × (p g ≡ true)
  Leads none none = Unit
  Leads none (some g) = (q g ≡ true) × (p g ≡ false)

  both-Leads : (x : A) (a b : Option A) → p x ≡ true → Leads a b → Leads (pick x a) (pick x b)
  both-Leads x none none t l = (refl, t)
  both-Leads x none (some g) t l = (rw (asym x g (later x g t l.0 l.1)) refl, t)
  both-Leads x (some g) b t l = elim (Bool-cases (before g x)) [
    | inl first ↦ rw (l.0, first) (refl, l.1)
    | inr other ↦ rw (l.0, other) (refl, t)
  ]

  more-Leads : (x : A) (a b : Option A) → q x ≡ true → p x ≡ false → Leads a b → Leads a (pick x b)
  more-Leads x none none t n l = (t, n)
  more-Leads x none (some g) t n l = elim (Bool-cases (before g x)) [
    | inl first ↦ rw first l
    | inr other ↦ rw other (t, n)
  ]
  more-Leads x (some g) b t n l = (rw (l.0, later g x l.1 t n) refl, l.1)

  first-Leads :
      (xs : List A)
      → Leads (head? (order_by before (select p xs))) (head? (order_by before (select q xs)))
  unfolding order_by select
  first-Leads [] = tt
  first-Leads (x ∷ xs) = elim (Bool-cases (p x)) [
    | inl t ↦
        rw
          (
            t,
            wider x t,
            head?-insert_by x (order_by before (select p xs)),
            head?-insert_by x (order_by before (select q xs)),
          )
          (both-Leads x _ _ t (first-Leads xs))
    | inr n ↦ elim (Bool-cases (q x)) [
      | inl more ↦
          rw (n, more, head?-insert_by x (order_by before (select q xs)))
            (more-Leads x _ _ more n (first-Leads xs))
      | inr neither ↦ rw (n, neither) (first-Leads xs)
    ]
  ]

  pub first_stays :
      (xs : List A) {h : A}
      → head? (order_by before (select p xs)) ≡ some h
      → head? (order_by before (select q xs)) ≡ some h
  first_stays xs e =
      (subst (λ o. Leads o (head? (order_by before (select q xs)))) e (first-Leads xs)).0
