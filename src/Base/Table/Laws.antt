-- ===== src/Base/Table/Laws.antt =====
-- Laws of the table operations: what is counted, found and updated.
use Prim.Native.Nat.{◌+◌, ◌≤◌}
use mathlib.Core.Path.{◌≡◌, refl, sym, ap, ◌∙◌}
use mathlib.Core.Logic.{inl, inr}
use mathlib.Core.Bool.{Bool, true, false}
use mathlib.Core.List.{List, [], ◌∷◌, ◌++◌, Memᴰ}
use mathlib.Core.Option.{Option, none, some}
use mathlib.Core.Option
use native.Mathlib.Omega.{arith}
use comfy_ui_account_manager.Base.Tests.{if◌then◌else◌, Bool-cases, Option-cases, is_some}
use comfy_ui_account_manager.Base.Table.{one_if, count, update, fetch_one}

module _ {ℓ} {A : Type ℓ} where
  -- An update that turns no row into one with `q` counts at most as many.
  pub count-update-le :
      (q p : A → Bool) (f : A → A) (xs : List A)
      → ((x : A) → p x ≡ true → q (f x) ≡ true → q x ≡ true)
      → count q (update p f xs) ≤ count q xs
  unfolding count update
  count-update-le q p f [] h = omega arith
  count-update-le q p f (x ∷ xs) h = ground (arith, h x, count-update-le q p f xs h)

  -- An update that does not change `q` does not change its count.
  pub count-update :
      (q p : A → Bool) (f : A → A) (xs : List A)
      → ((x : A) → p x ≡ true → q (f x) ≡ q x)
      → count q (update p f xs) ≡ count q xs
  unfolding count update
  count-update q p f [] h = refl
  count-update q p f (x ∷ xs) h = ground (arith, h x, count-update q p f xs h)

  pub count_mono :
      (q r : A → Bool) (xs : List A) → ((x : A) → q x ≡ true → r x ≡ true) → count q xs ≤ count r xs
  unfolding count
  count_mono q r [] h = omega arith
  count_mono q r (x ∷ xs) h = ground (arith, h x, count_mono q r xs h)

  -- An update counts at most the rows that it changes more.
  pub count-update-le_add :
      (q p : A → Bool) (f : A → A) (xs : List A) → count q (update p f xs) ≤ count q xs + count p xs
  unfolding count update
  count-update-le_add q p f [] = omega arith
  count-update-le_add q p f (x ∷ xs) = ground (arith, count-update-le_add q p f xs)

  -- No row has `p`: the update does nothing.
  pub update_of_count-eq-zero :
      (p : A → Bool) (f : A → A) (xs : List A) → count p xs ≡ 0 → update p f xs ≡ xs
  unfolding count update
  update_of_count-eq-zero p f [] h = refl
  update_of_count-eq-zero p f (x ∷ xs) h = ground (arith, update_of_count-eq-zero p f xs)

  pub count-pos_of_mem :
      {a : A} (p : A → Bool) (xs : List A) → Memᴰ a xs → p a ≡ true → 1 ≤ count p xs
  unfolding count
  count-pos_of_mem p [] m h = elim m [ ]
  count-pos_of_mem p (x ∷ xs) (Memᴰ.head e) h = ground (arith, ap p e)
  count-pos_of_mem p (x ∷ xs) (Memᴰ.tail m) h = ground (arith, count-pos_of_mem p xs m h)

  -- The one row that an update changes is known: the exact change of a count.
  pub count-update_one :
      {a : A} (q p : A → Bool) (f : A → A) (xs : List A)
      → Memᴰ a xs
      → p a ≡ true
      → count p xs ≡ 1
      → count q (update p f xs) + one_if (q a) ≡ count q xs + one_if (q (f a))
  unfolding count update
  count-update_one q p f [] m h one = elim m [ ]
  count-update_one q p f (x ∷ xs) (Memᴰ.head e) h one =
      ground (arith, ap p e, ap q e, ap (λ y. q (f y)) e, update_of_count-eq-zero p f xs, one)
  count-update_one q p f (x ∷ xs) (Memᴰ.tail m) h one =
      ground (arith, count-pos_of_mem p xs m h, count-update_one q p f xs m h, one)

  pub fetch_one-mem :
      {a : A} (p : A → Bool) (xs : List A) → fetch_one p xs ≡ some a → Memᴰ a xs × (p a ≡ true)
  unfolding fetch_one
  fetch_one-mem p [] h = ground arith
  fetch_one-mem p (x ∷ xs) h = elim (Bool-cases (p x)) [
    | inl t ↦ (Memᴰ.head (ground arith), ground (arith, ap (is_some {A = A}) h))
    | inr e ↦ let found = fetch_one-mem p xs (ground arith) in (Memᴰ.tail found.0, found.1)
  ]

  pub fetch_one-none : (p : A → Bool) (xs : List A) → fetch_one p xs ≡ none → count p xs ≡ 0
  unfolding fetch_one count
  fetch_one-none p [] h = refl
  fetch_one-none p (x ∷ xs) h = ground (arith, fetch_one-none p xs)

  pub count-append : (q : A → Bool) (xs ys : List A) → count q (xs ++ ys) ≡ count q xs + count q ys
  unfolding count
  count-append q [] ys = omega arith
  count-append q (x ∷ xs) ys = omega (arith, count-append q xs ys)

  pub count-snoc :
      (q : A → Bool) (xs : List A) (x : A) → count q (xs ++ x ∷ []) ≡ count q xs + one_if (q x)
  unfolding count
  count-snoc q xs x = omega (arith, count-append q xs (x ∷ []))

  -- The same for an update that is known on the rows of the table only.
  pub count-update-le_mem :
      (q p : A → Bool) (f : A → A) (xs : List A)
      → ((x : A) → Memᴰ x xs → p x ≡ true → q (f x) ≡ true → q x ≡ true)
      → count q (update p f xs) ≤ count q xs
  unfolding count update
  count-update-le_mem q p f [] h = omega arith
  count-update-le_mem q p f (x ∷ xs) h =
      ground (arith, h x (Memᴰ.head refl), count-update-le_mem q p f xs (λ y m. h y (Memᴰ.tail m)))

  -- Two rows with `p` are one row, if at most one has it.
  pub mem_unique :
      {a b : A} (p : A → Bool) (xs : List A)
      → count p xs ≤ 1
      → Memᴰ a xs
      → p a ≡ true
      → Memᴰ b xs
      → p b ≡ true
      → a ≡ b
  unfolding count
  mem_unique p [] one m h n k = elim m [ ]
  mem_unique p (x ∷ xs) one (Memᴰ.head e) h (Memᴰ.head d) k = e ∙ sym d
  mem_unique p (x ∷ xs) one (Memᴰ.head e) h (Memᴰ.tail n) k =
      absurd (ground (arith, ap p e, count-pos_of_mem p xs n k))
  mem_unique p (x ∷ xs) one (Memᴰ.tail m) h (Memᴰ.head d) k =
      absurd (ground (arith, ap p d, count-pos_of_mem p xs m h))
  mem_unique p (x ∷ xs) one (Memᴰ.tail m) h (Memᴰ.tail n) k = mem_unique p xs (omega arith) m h n k

  -- A row appended where none had `p` is the one that is found.
  pub fetch_one-snoc :
      (p : A → Bool) (xs : List A) (x : A)
      → fetch_one p xs ≡ none
      → p x ≡ true
      → fetch_one p (xs ++ x ∷ []) ≡ some x
  unfolding fetch_one
  fetch_one-snoc p [] x e h = ground arith
  fetch_one-snoc p (y ∷ xs) x e h = ground (arith, fetch_one-snoc p xs x)

  -- What is found after an update, where the new test holds of just the updated rows.
  pub fetch_one-update :
      (p q : A → Bool) (f : A → A) (xs : List A)
      → ((x : A) → p (if q x then f x else x) ≡ q x)
      → fetch_one p (update q f xs) ≡ Option.map f (fetch_one q xs)
  unfolding fetch_one update
  fetch_one-update p q f [] h = refl
  fetch_one-update p q f (x ∷ xs) h = elim (Bool-cases (q x)) [
    | inl t ↦ ground (arith, h x)
    | inr n ↦ ground (arith, h x, fetch_one-update p q f xs h)
  ]

  pub fetch_one-some :
      {a : A} (p : A → Bool) (xs : List A)
      → Memᴰ a xs
      → p a ≡ true
      → (b : A) × (fetch_one p xs ≡ some b)
  fetch_one-some {a} p xs m h = elim (Option-cases (fetch_one p xs)) [
    | inl e ↦ absurd (omega (arith, fetch_one-none p xs e, count-pos_of_mem p xs m h))
    | inr found ↦ found
  ]

  -- After an update that takes `p` from every row that has it, no row has it.
  pub count-update_gone :
      (p : A → Bool) (f : A → A) (xs : List A)
      → ((x : A) → p x ≡ true → p (f x) ≡ false)
      → count p (update p f xs) ≡ 0
  unfolding count update
  count-update_gone p f [] h = refl
  count-update_gone p f (x ∷ xs) h = ground (arith, h x, count-update_gone p f xs h)
