-- ===== src/Base/Options.antt =====
-- Code that may raise, where only that it raises matters: `none` stands for any exception.
use mathlib.Core.Path.{◌≡◌, refl}
use mathlib.Core.Option.{Option, none, some}
use native.Mathlib.Omega.{arith}

infixl 5 ◌>>=◌
abbrev pub ◌>>=◌ {ℓ κ} : {A : Type ℓ} {B : Type κ} → Option A → (A → Option B) → Option B
none >>= next = none
some value >>= next = next value

-- A chain that returned has returned at its first step.
pub >>=-eq-some {ℓ κ} :
    {A : Type ℓ} {B : Type κ} {b : B} (o : Option A) (next : A → Option B)
    → (o >>= next) ≡ some b
    → (a : A) × (next a ≡ some b) × (o ≡ some a)
>>=-eq-some none next e = ground arith
>>=-eq-some (some a) next e = (a, e, refl)
