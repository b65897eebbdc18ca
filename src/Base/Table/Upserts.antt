-- ===== src/Base/Table/Upserts.antt =====
-- Laws of INSERT ... ON CONFLICT DO UPDATE.
use Prim.Native.Nat.{◌≤◌}
use mathlib.Core.Path.{◌≡◌, refl}
use mathlib.Core.Logic.{◌⊎◌, inl, inr}
use mathlib.Core.Bool.{Bool, true, false}
use mathlib.Core.List.{List, [], ◌∷◌, Memᴰ}
use native.Mathlib.Omega.{arith}
use comfy_ui_account_manager.Base.Tests.{Bool-cases}
use comfy_ui_account_manager.Base.Table.{count, upsert}

module _ {ℓ} {A : Type ℓ} where
  pub count_of_none :
      (p : A → Bool) (xs : List A) → ((x : A) → Memᴰ x xs → p x ≡ false) → count p xs ≡ 0
  unfolding count
  count_of_none p [] h = refl
  count_of_none p (x ∷ xs) h =
      ground (arith, h x (Memᴰ.head refl), count_of_none p xs (λ y m. h y (Memᴰ.tail m)))

  mem-cons : {b y : A} {ys : List A} → Memᴰ b (y ∷ ys) → (b ≡ y) ⊎ Memᴰ b ys
  mem-cons (Memᴰ.head e) = inl e
  mem-cons (Memᴰ.tail m) = inr m

  -- A row after an upsert is an old one, the new value of an old one, or the new one, which is added
  -- only if no row has the key.
  pub mem-upsert :
      {b : A} (p : A → Bool) (f : A → A) (new : A) (xs : List A)
      → Memᴰ b (upsert p f new xs)
      → Memᴰ b xs ⊎ (((a : A) × Memᴰ a xs × (b ≡ f a)) ⊎ ((b ≡ new) × (count p xs ≡ 0)))
  unfolding upsert count
  mem-upsert p f new [] (Memᴰ.head e) = inr (inr (e, refl))
  mem-upsert p f new [] (Memᴰ.tail m) = elim m [ ]
  mem-upsert p f new (x ∷ xs) m = elim (Bool-cases (p x)) [
    | inl t ↦ elim (mem-cons (rw t at m)) [
      | inl h ↦ inr (inl (x, Memᴰ.head refl, h))
      | inr m' ↦ inl (Memᴰ.tail m')
    ]
    | inr e ↦ elim (mem-cons (rw e at m)) [
      | inl h ↦ inl (Memᴰ.head h)
      | inr m' ↦ elim (mem-upsert p f new xs m') [
        | inl old ↦ inl (Memᴰ.tail old)
        | inr (inl (a, old, h)) ↦ inr (inl (a, Memᴰ.tail old, h))
        | inr (inr (h, absent)) ↦ inr (inr (h, ground (arith, e, absent)))
      ]
    ]
  ]

  pub count-upsert-le :
      (q p : A → Bool) (f : A → A) (new : A) (xs : List A)
      → ((x : A) → q (f x) ≡ q x)
      → count q xs ≤ count q (upsert p f new xs)
  unfolding upsert count
  count-upsert-le q p f new [] h = omega arith
  count-upsert-le q p f new (x ∷ xs) h = ground (arith, h x, count-upsert-le q p f new xs h)

  -- An upsert leaves a row with the key.
  pub upsert-stores :
      (p : A → Bool) (f : A → A) (new : A) (xs : List A)
      → ((x : A) → p (f x) ≡ p x)
      → p new ≡ true
      → 1 ≤ count p (upsert p f new xs)
  unfolding upsert count
  upsert-stores p f new [] h n = ground arith
  upsert-stores p f new (x ∷ xs) h n = ground (arith, h x, upsert-stores p f new xs h n)
