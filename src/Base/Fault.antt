-- ===== src/Base/Fault.antt =====
-- Code that can fault: `none` is a failed `assert` or an access outside an array. The build does
-- not define NDEBUG, so an assert that fails ends the program.
use mathlib.Core.Bool.{Bool, true, false}
use mathlib.Core.Option.{Option, none, some}
use mathlib.Core.Path.{◌≡◌, refl}

infixl 5 ◌>>=◌ ◌>>◌
abbrev pub ◌>>=◌ {ℓ κ} : {A : Type ℓ} {B : Type κ} → Option A → (A → Option B) → Option B
none >>= f = none
some a >>= f = f a

abbrev pub ◌>>◌ {ℓ} : {B : Type ℓ} → Option (Unit {0}) → Option B → Option B
m >> k = m >>= λ _. k

abbrev pub assert_that : Bool → Option (Unit {0})
assert_that true = some tt
assert_that false = none

-- Code that has a result: its parts have one.
pub bind-some {ℓ κ} :
    {A : Type ℓ} {B : Type κ} (o : Option A) (f : A → Option B) (b : B)
    → (o >>= f) ≡ some b
    → (a : A) × (o ≡ some a) × (f a ≡ some b)
bind-some none f b e = absurd (cc)
bind-some (some a) f b e = (a, refl, e)

pub assert_that-some {ℓ} :
    {B : Type ℓ} (c : Bool) (m : Option B) (b : B)
    → (assert_that c >> m) ≡ some b
    → (c ≡ true) × (m ≡ some b)
assert_that-some true m b e = (refl, e)
assert_that-some false m b e = absurd (cc)
