-- ===== src/Base/Dict.antt =====
-- Python's `dict` with text keys, as an association list without repeated writes of a key.
use text.Mathlib.Text.{◌==◌ as str_eq}
use text.Mathlib.TextEquality.{eq_iff}
use mathlib.Core.Path.{◌≡◌, refl}
use mathlib.Core.List.{List, [], ◌∷◌}
use mathlib.Core.Option.{Option, none, some}
use Prim.Native.String.{String}
use native.Mathlib.Omega.{arith}
use comfy_ui_account_manager.Base.Tests.{if◌then◌else◌}

abbrev pub Dict {ℓ} : Type ℓ → Type ℓ
Dict V = List (String × V)

module _ {ℓ} {V : Type ℓ} where
  -- d.get(key)
  unfoldable pub lookup : String → Dict V → Option V
  lookup key [] = none
  lookup key (entry ∷ dict) =
      let later = lookup key dict in if str_eq entry.0 key then some entry.1 else later

  -- d[key] = value
  unfoldable pub insert : String → V → Dict V → Dict V
  insert key value [] = (key, value) ∷ []
  insert key value (entry ∷ dict) =
      let later = insert key value dict in
      if str_eq entry.0 key then (key, value) ∷ dict else entry ∷ later

  -- d.pop(key, None)
  unfoldable pub erase : String → Dict V → Dict V
  erase key [] = []
  erase key (entry ∷ dict) =
      let later = erase key dict in if str_eq entry.0 key then later else entry ∷ later

  pub lookup-insert :
      (dict : Dict V) (value : V) (key other : String)
      → lookup other (insert key value dict)
        ≡ (if str_eq key other then some value else lookup other dict)
  unfolding lookup insert
  lookup-insert [] value key other = refl
  lookup-insert (entry ∷ dict) value key other =
      let ih = lookup-insert dict value key other in
      ground (arith, ih, eq_iff entry.0 key, eq_iff entry.0 other, eq_iff key other)

  pub lookup-erase :
      (dict : Dict V) (key other : String)
      → lookup other (erase key dict) ≡ (if str_eq key other then none else lookup other dict)
  unfolding lookup erase
  lookup-erase [] key other = ground arith
  lookup-erase (entry ∷ dict) key other =
      let ih = lookup-erase dict key other in
      ground (arith, ih, eq_iff entry.0 key, eq_iff entry.0 other, eq_iff key other)
