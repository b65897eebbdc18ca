-- ===== src/Base/Table/Latest.antt =====
-- A table that keeps its last rows: what an upsert, followed by dropping rows at the front, leaves of
-- the row that it wrote.
use Prim.Native.Nat.{ℕ, zero, suc, ◌+◌, ◌-◌, ◌≤◌}
use mathlib.Core.Path.{◌≡◌, refl, sym, ap, ◌∙◌}
use mathlib.Core.Logic.{inl, inr}
use mathlib.Core.Bool.{Bool, true, false}
use mathlib.Core.List.{List, [], ◌∷◌, ◌++◌, Memᴰ}
use mathlib.Core.Option.{some}
use native.Mathlib.Omega.{arith}
use comfy_ui_account_manager.Base.Tests.{Bool-cases}
use comfy_ui_account_manager.Base.Lists.{length, drop}
use comfy_ui_account_manager.Base.Table.Laws.{count-pos_of_mem}
use comfy_ui_account_manager.Base.Table.{select, count, fetch_one, upsert}

module _ {ℓ} {A : Type ℓ} where
  pub length-upsert-of_present :
      (p : A → Bool) (f : A → A) (new : A) (xs : List A)
      → 1 ≤ count p xs
      → length (upsert p f new xs) ≡ length xs
  unfolding upsert count
  length-upsert-of_present p f new [] h = omega (arith, h)
  length-upsert-of_present p f new (x ∷ xs) h =
      ground (arith, h, length-upsert-of_present p f new xs)

  pub upsert_of_absent :
      (p : A → Bool) (f : A → A) (new : A) (xs : List A)
      → count p xs ≡ 0
      → upsert p f new xs ≡ xs ++ new ∷ []
  unfolding upsert count
  upsert_of_absent p f new [] h = refl
  upsert_of_absent p f new (x ∷ xs) h = ground (arith, h, upsert_of_absent p f new xs)

  pub length-append-one : (xs : List A) (x : A) → length (xs ++ x ∷ []) ≡ length xs + 1
  length-append-one [] x = refl
  length-append-one (y ∷ xs) x = omega (arith, length-append-one xs x)

  pub length-drop : (n : ℕ) (xs : List A) → length (drop n xs) ≡ length xs - n
  length-drop zero xs = omega arith
  length-drop (suc n) [] = omega arith
  length-drop (suc n) (x ∷ xs) = omega (arith, length-drop n xs)

  pub count-drop-le : (p : A → Bool) (n : ℕ) (xs : List A) → count p (drop n xs) ≤ count p xs
  unfolding count
  count-drop-le p zero xs = omega arith
  count-drop-le p (suc n) [] = omega arith
  count-drop-le p (suc n) (x ∷ xs) = ground (arith, count-drop-le p n xs)

  pub mem-drop : {a : A} (n : ℕ) (xs : List A) → Memᴰ a (drop n xs) → Memᴰ a xs
  mem-drop zero xs m = m
  mem-drop (suc n) [] m = elim m [ ]
  mem-drop (suc n) (x ∷ xs) m = Memᴰ.tail (mem-drop n xs m)

  pub count-select-le : (p q : A → Bool) (xs : List A) → count p (select q xs) ≤ count p xs
  unfolding count select
  count-select-le p q [] = omega arith
  count-select-le p q (x ∷ xs) = ground (arith, count-select-le p q xs)

  -- The new row is the only one with `p` after dropping older rows.
  pub select-drop_snoc :
      (p : A → Bool) (n : ℕ) (xs : List A) (x : A)
      → count p xs ≡ 0
      → p x ≡ true
      → n ≤ length xs
      → select p (drop n (xs ++ x ∷ [])) ≡ x ∷ []
  unfolding select count
  select-drop_snoc p zero [] x h t le = ground (arith, t)
  select-drop_snoc p (suc n) [] x h t le = ground (arith, le)
  select-drop_snoc p zero (y ∷ xs) x h t le = ground (arith, h, t, select-drop_snoc p zero xs x)
  select-drop_snoc p (suc n) (y ∷ xs) x h t le = ground (arith, h, t, le, select-drop_snoc p n xs x)

  pub select_of_absent : (p : A → Bool) (xs : List A) → count p xs ≡ 0 → select p xs ≡ []
  unfolding select count
  select_of_absent p [] h = refl
  select_of_absent p (x ∷ xs) h = ground (arith, h, select_of_absent p xs)

  -- The updated row is the only one with `p`.
  pub select-upsert_one :
      {a : A} (p : A → Bool) (f : A → A) (new : A) (xs : List A)
      → fetch_one p xs ≡ some a
      → count p xs ≤ 1
      → p (f a) ≡ true
      → select p (upsert p f new xs) ≡ f a ∷ []
  unfolding select upsert fetch_one count
  select-upsert_one p f new [] e one t = ground (arith, e)
  select-upsert_one {a = a} p f new (x ∷ xs) e one t = elim (Bool-cases (p x)) [
    | inl hit ↦
        let same : x ≡ a = ground (arith, e, hit) in
        let now : p (f x) ≡ true = ap (λ y. p (f y)) same ∙ t in
        rw (hit, now, select_of_absent p xs (omega (arith, rw hit at one)))
          (ap (λ y. f y ∷ []) same)
    | inr miss ↦
        rw (miss, miss)
          (select-upsert_one p f new xs (rw miss at e) (omega (arith, rw miss at one)) t)
  ]

  pub fetch_one_of_mem :
      {a : A} (p : A → Bool) (xs : List A)
      → Memᴰ a xs
      → p a ≡ true
      → count p xs ≤ 1
      → fetch_one p xs ≡ some a
  unfolding fetch_one count
  fetch_one_of_mem p [] m t one = elim m [ ]
  fetch_one_of_mem p (x ∷ xs) (Memᴰ.head e) t one =
      let hit : p x ≡ true = ground (arith, ap p e, t) in rw hit (ap some (sym e))
  fetch_one_of_mem p (x ∷ xs) (Memᴰ.tail m) t one =
      let miss : p x ≡ false = ground (arith, count-pos_of_mem p xs m t, one) in
      rw miss (fetch_one_of_mem p xs m t (omega (arith, rw miss at one)))
