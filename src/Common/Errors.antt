-- ===== src/Common/Errors.antt =====
-- Exceptions as values. An error is the class that the source raises; message texts are left out.
use mathlib.Core.Path.{◌≡◌, refl}
use mathlib.Core.Logic.{◌⊎◌, inl, inr}
use mathlib.Core.Bool.{Bool, true, false}
use mathlib.Core.Option.{Option, none, some}

-- The exception classes of the modelled modules.
pub data Error : Type 0 where
  value_error key_error : Error
  execution_error blocked busy cancelled expired interrupted integrity : Error
  usage_unavailable legacy_selection : Error

-- What a call gives: a value, or the error that it raises.
pub data Result {ℓ} (Value : Type ℓ) : Type ℓ where
  err : Error → Result Value
  ok : Value → Result Value

-- To split on a computed result and keep the equation.
pub Result-cases {ℓ} :
    {A : Type ℓ} (r : Result A) → ((a : A) × (r ≡ ok a)) ⊎ ((e : Error) × (r ≡ err e))
Result-cases (ok a) = inl (a, refl)
Result-cases (err e) = inr (e, refl)

-- `try: … except …: raise e`.
abbrev pub rethrow {ℓ} : {Value : Type ℓ} → Result Value → Error → Result Value
rethrow (err _) e = err e
rethrow (ok v) e = ok v

-- `if value is None: raise e`.
abbrev pub or_fail {ℓ} : {Value : Type ℓ} → Option Value → Error → Result Value
or_fail (some v) e = ok v
or_fail none e = err e

-- `if not condition: raise error`.
abbrev pub guard : (condition : Bool) (error : Error) → Result (Unit {0})
guard false error = err error
guard true error = ok tt

-- One call after another: the first error ends the chain.
infixl 5 ◌>>=◌
abbrev pub ◌>>=◌ {ℓ κ} :
    {Value : Type ℓ} {Next : Type κ} → Result Value → (Value → Result Next) → Result Next
err e >>= next_call = err e
ok v >>= next_call = next_call v

infixl 5 ◌>>◌
abbrev pub ◌>>◌ {κ} :
    {Next : Type κ} (first : Result (Unit {0})) (next_call : Result Next) → Result Next
first >> next_call = first >>= λ done. next_call
