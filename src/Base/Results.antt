-- ===== src/Base/Results.antt =====
-- Results of code that can throw, fail or be undefined, and the binds that `do` blocks use.
use mathlib.Core.Path.{◌≡◌, refl}
use mathlib.Core.Option.{Option, none, some}

pub data Result {ℓ κ} (E : Type κ) (A : Type ℓ) : Type (ℓ ⊔ κ) where
  ok : A → Result E A
  err : E → Result E A

-- The next step runs on the value of the one before; an error skips it.
infixl 5 ◌>>=◌
abbrev pub ◌>>=◌ {ι κ ℓ} :
    {E : Type ι} {B : Type κ} {A : Type ℓ} → Result E A → (A → Result E B) → Result E B
err e >>= step = err e
ok a >>= step = step a

-- A missing value is the error `e`.
abbrev pub or_err {ℓ κ} : {E : Type κ} {A : Type ℓ} → E → Option A → Result E A
or_err e none = err e
or_err e (some a) = ok a

-- Where a bind returns, both its parts did.
pub >>=-eq-ok {ι κ ℓ} :
    {E : Type ι} {B : Type κ} {A : Type ℓ} {b : B} (first : Result E A) (step : A → Result E B)
    → (first >>= step) ≡ ok b
    → (a : A) × (step a ≡ ok b) × (first ≡ ok a)
>>=-eq-ok (err e) step h = cc
>>=-eq-ok (ok a) step h = (a, h, refl)
