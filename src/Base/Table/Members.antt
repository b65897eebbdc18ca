-- ===== src/Base/Table/Members.antt =====
-- The rows of a table after WHERE, UPDATE, ORDER BY and INSERT.
use mathlib.Core.Path.{◌≡◌, refl, ap, ◌∙◌}
use mathlib.Core.Logic.{◌⊎◌, inl, inr}
use mathlib.Core.Bool.{Bool, true, false}
use mathlib.Core.List.{List, [], ◌∷◌, ◌++◌, Memᴰ}
use comfy_ui_account_manager.Base.Tests.{if◌then◌else◌, Bool-cases}
use comfy_ui_account_manager.Base.Table.{select, update, insert_by, order_by}

module _ {ℓ} {A : Type ℓ} where
  mem-if :
      {a x : A} (b : Bool) (rest : List A)
      → Memᴰ a (if b then x ∷ rest else rest)
      → (a ≡ x) × (b ≡ true) ⊎ Memᴰ a rest
  mem-if true rest (Memᴰ.head e) = inl (e, refl)
  mem-if true rest (Memᴰ.tail m) = inr m
  mem-if false rest m = inr m

  pub mem-select :
      {a : A} (p : A → Bool) (xs : List A) → Memᴰ a (select p xs) → Memᴰ a xs × (p a ≡ true)
  unfolding select
  mem-select p [] m = elim m [ ]
  mem-select p (x ∷ xs) m = elim (mem-if (p x) (select p xs) m) [
    | inl (e, t) ↦ (Memᴰ.head e, ap p e ∙ t)
    | inr m' ↦ let found = mem-select p xs m' in (Memᴰ.tail found.0, found.1)
  ]

  pub select-mem :
      {a : A} (p : A → Bool) (xs : List A) → Memᴰ a xs → p a ≡ true → Memᴰ a (select p xs)
  unfolding select
  select-mem p [] m h = elim m [ ]
  select-mem p (x ∷ xs) (Memᴰ.head e) h = rw (← ap p e) (rw h (Memᴰ.head e))
  select-mem p (x ∷ xs) (Memᴰ.tail m) h = elim (Bool-cases (p x)) [
    | inl t ↦ rw t (Memᴰ.tail (select-mem p xs m h))
    | inr e ↦ rw e (select-mem p xs m h)
  ]

  pub mem-update :
      {b : A} (p : A → Bool) (f : A → A) (xs : List A)
      → Memᴰ b (update p f xs)
      → (a : A) × Memᴰ a xs × (b ≡ (if p a then f a else a))
  unfolding update
  mem-update p f [] m = elim m [ ]
  mem-update p f (x ∷ xs) (Memᴰ.head e) = (x, Memᴰ.head refl, e)
  mem-update p f (x ∷ xs) (Memᴰ.tail m) =
      let (a, found, e) = mem-update p f xs m in (a, Memᴰ.tail found, e)

  pub update-mem :
      {a : A} (p : A → Bool) (f : A → A) (xs : List A)
      → Memᴰ a xs
      → Memᴰ (if p a then f a else a) (update p f xs)
  unfolding update
  update-mem p f [] m = elim m [ ]
  update-mem p f (x ∷ xs) (Memᴰ.head e) = Memᴰ.head (ap (λ y. if p y then f y else y) e)
  update-mem p f (x ∷ xs) (Memᴰ.tail m) = Memᴰ.tail (update-mem p f xs m)

  insert_by-mem :
      {b : A} (before : A → A → Bool) (a : A) (xs : List A)
      → (b ≡ a) ⊎ Memᴰ b xs
      → Memᴰ b (insert_by before a xs)
  unfolding insert_by
  insert_by-mem before a [] (inl e) = Memᴰ.head e
  insert_by-mem before a [] (inr m) = elim m [ ]
  insert_by-mem before a (x ∷ xs) (inl e) = elim (Bool-cases (before x a)) [
    | inl t ↦ rw t (Memᴰ.tail (insert_by-mem before a xs (inl e)))
    | inr n ↦ rw n (Memᴰ.head e)
  ]
  insert_by-mem before a (x ∷ xs) (inr (Memᴰ.head e)) = elim (Bool-cases (before x a)) [
    | inl t ↦ rw t (Memᴰ.head e)
    | inr n ↦ rw n (Memᴰ.tail (Memᴰ.head e))
  ]
  insert_by-mem before a (x ∷ xs) (inr (Memᴰ.tail m)) = elim (Bool-cases (before x a)) [
    | inl t ↦ rw t (Memᴰ.tail (insert_by-mem before a xs (inr m)))
    | inr n ↦ rw n (Memᴰ.tail (Memᴰ.tail m))
  ]

  mem-if_cons :
      {b a x : A} (t : Bool) (rest xs : List A)
      → Memᴰ b (if t then x ∷ rest else a ∷ x ∷ xs)
      → (Memᴰ b rest → (b ≡ a) ⊎ Memᴰ b xs)
      → (b ≡ a) ⊎ Memᴰ b (x ∷ xs)
  mem-if_cons true rest xs (Memᴰ.head e) back = inr (Memᴰ.head e)
  mem-if_cons true rest xs (Memᴰ.tail m) back = elim (back m) [
    | inl e ↦ inl e
    | inr m' ↦ inr (Memᴰ.tail m')
  ]
  mem-if_cons false rest xs (Memᴰ.head e) back = inl e
  mem-if_cons false rest xs (Memᴰ.tail m) back = inr m

  pub mem-insert_by :
      {b : A} (before : A → A → Bool) (a : A) (xs : List A)
      → Memᴰ b (insert_by before a xs)
      → (b ≡ a) ⊎ Memᴰ b xs
  unfolding insert_by
  mem-insert_by before a [] (Memᴰ.head e) = inl e
  mem-insert_by before a [] (Memᴰ.tail m) = inr m
  mem-insert_by before a (x ∷ xs) m =
      mem-if_cons (before x a) (insert_by before a xs) xs m (mem-insert_by before a xs)

  pub mem-order_by :
      {b : A} (before : A → A → Bool) (xs : List A) → Memᴰ b (order_by before xs) → Memᴰ b xs
  unfolding order_by
  mem-order_by before [] m = elim m [ ]
  mem-order_by before (x ∷ xs) m = elim (mem-insert_by before x (order_by before xs) m) [
    | inl e ↦ Memᴰ.head e
    | inr m' ↦ Memᴰ.tail (mem-order_by before xs m')
  ]

  pub order_by-mem :
      {b : A} (before : A → A → Bool) (xs : List A) → Memᴰ b xs → Memᴰ b (order_by before xs)
  unfolding order_by
  order_by-mem before [] m = elim m [ ]
  order_by-mem before (x ∷ xs) (Memᴰ.head e) = insert_by-mem before x (order_by before xs) (inl e)
  order_by-mem before (x ∷ xs) (Memᴰ.tail m) =
      insert_by-mem before x (order_by before xs) (inr (order_by-mem before xs m))

  pub mem-append_left : {a : A} (xs ys : List A) → Memᴰ a xs → Memᴰ a (xs ++ ys)
  mem-append_left [] ys m = elim m [ ]
  mem-append_left (x ∷ xs) ys (Memᴰ.head e) = Memᴰ.head e
  mem-append_left (x ∷ xs) ys (Memᴰ.tail m) = Memᴰ.tail (mem-append_left xs ys m)

  pub mem-snoc : {a x : A} (xs : List A) → Memᴰ a (xs ++ x ∷ []) → Memᴰ a xs ⊎ (a ≡ x)
  mem-snoc [] (Memᴰ.head e) = inr e
  mem-snoc [] (Memᴰ.tail m) = elim m [ ]
  mem-snoc (y ∷ xs) (Memᴰ.head e) = inl (Memᴰ.head e)
  mem-snoc (y ∷ xs) (Memᴰ.tail m) = elim (mem-snoc xs m) [
    | inl m' ↦ inl (Memᴰ.tail m')
    | inr e ↦ inr e
  ]
