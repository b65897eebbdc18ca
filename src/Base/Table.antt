-- ===== src/Base/Table.antt =====
-- The parts of SQL that the stores use, on a table that is the list of its rows in the order of insertion.
-- SQLite itself is not modelled: these are the documented meanings of WHERE, UPDATE, COUNT,
-- ORDER BY and LIMIT 1, and each statement of the source is written out with them.
pub mod Latest
pub mod Laws
pub mod Members
pub mod Order
pub mod Sorted
pub mod Upserts
use Prim.Native.Nat.{ℕ, zero, suc, ◌+◌, ◌≤◌}
use mathlib.Core.Path.{◌≡◌, refl, ap}
use mathlib.Core.Bool.{Bool, true, false, not}
use mathlib.Core.List.{List, [], ◌∷◌, ◌++◌, Memᴰ}
use mathlib.Core.Option.{Option, none, some}
use native.Mathlib.Omega.{arith}
use comfy_ui_account_manager.Base.Tests.{if◌then◌else◌}
use comfy_ui_account_manager.Base.Lists.{length, head?}

abbrev pub one_if : Bool → ℕ
one_if true = 1
one_if false = 0

module _ {ℓ} {A : Type ℓ} where
  -- SELECT ... WHERE p
  unfoldable pub select : (A → Bool) → List A → List A
  select p [] = []
  select p (x ∷ xs) = let rest = select p xs in if p x then x ∷ rest else rest

  -- SELECT COUNT(*) ... WHERE p, and the rowcount of a statement on the rows with p
  unfoldable pub count : (A → Bool) → List A → ℕ
  count p [] = 0
  count p (x ∷ xs) = one_if (p x) + count p xs

  -- UPDATE ... SET f WHERE p
  unfoldable pub update : (A → Bool) → (A → A) → List A → List A
  update p f [] = []
  update p f (x ∷ xs) = (if p x then f x else x) ∷ update p f xs

  -- DELETE ... WHERE p
  unfoldable pub delete : (A → Bool) → List A → List A
  unfolding select
  delete p xs = select (λ x. not (p x)) xs

  -- ... WHERE p, then fetchone()
  unfoldable pub fetch_one : (A → Bool) → List A → Option A
  fetch_one p [] = none
  fetch_one p (x ∷ xs) = let rest = fetch_one p xs in if p x then some x else rest

  unfoldable pub insert_by : (A → A → Bool) → A → List A → List A
  insert_by before a [] = a ∷ []
  insert_by before a (x ∷ xs) =
      let rest = insert_by before a xs in if before x a then x ∷ rest else a ∷ x ∷ xs

  -- ORDER BY, where `before x a` says that `x` comes before `a`
  unfoldable pub order_by : (A → A → Bool) → List A → List A
  unfolding insert_by
  order_by before [] = []
  order_by before (x ∷ xs) = insert_by before x (order_by before xs)

  -- ... ON CONFLICT(key) DO UPDATE: update the rows with the key, or append the new row
  unfoldable pub upsert : (A → Bool) → (A → A) → A → List A → List A
  upsert p f new [] = new ∷ []
  upsert p f new (x ∷ xs) = let rest = upsert p f new xs in if p x then f x ∷ xs else x ∷ rest
