-- ===== src/Prelude/Results.antt =====
-- Exceptions as values: `throw` is `err`, a call that returns is `ok`.
use mathlib.Core.Bool.{Bool, true, false}
use mathlib.Core.Path.{◌≡◌, refl}

pub data Result {ℓ κ} (Failed : Type ℓ) (Value : Type κ) : Type (ℓ ⊔ κ) where
  err : Failed → Result Failed Value
  ok : Value → Result Failed Value

-- `if (c) throw e`
abbrev pub throw_if {ℓ} : {Failed : Type ℓ} → Bool → Failed → Result Failed (Unit {0})
throw_if false e = ok tt
throw_if true e = err e

-- the rest of a body, behind a call that may throw
infixl 5 ◌>>=◌ ◌>>◌
abbrev pub ◌>>=◌ {ℓ ι κ} :
    {Failed : Type ℓ} {Start : Type ι} {Value : Type κ}
    → Result Failed Start
    → (Start → Result Failed Value)
    → Result Failed Value
err e >>= rest = err e
ok x >>= rest = rest x

abbrev pub ◌>>◌ {ℓ κ} :
    {Failed : Type ℓ} {Value : Type κ}
    → Result Failed (Unit {0})
    → Result Failed Value
    → Result Failed Value
first >> next = first >>= λ done. next

-- A guard that returns has not thrown.
pub throw_if-ok {ℓ} : {Failed : Type ℓ} (b : Bool) (e : Failed) → throw_if b e ≡ ok tt → b ≡ false
throw_if-ok true e h = cc
throw_if-ok false e h = refl

-- What follows a guard that returns is what returns.
pub throw_if->>-ok {ℓ κ} :
    {Failed : Type ℓ} {Value : Type κ} (b : Bool) (e : Failed) (rest : Result Failed Value)
    (y : Value)
    → throw_if b e >> rest ≡ ok y
    → (b ≡ false) × (rest ≡ ok y)
throw_if->>-ok true e rest y h = cc
throw_if->>-ok false e rest y h = (refl, h)
