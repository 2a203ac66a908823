-- ===== src/Prelude/Results.antt =====
-- Exceptions as values. The constructors of `Error` are the exception classes that the modelled
-- code raises; the text of a message is not modelled.
use mathlib.Core.Logic.{◌⊎◌, inl, inr}
use mathlib.Core.Path.{◌≡◌, refl}
use mathlib.Core.Bool.{Bool, true, false}
use mathlib.Core.Option.{Option, none, some}

pub data Error : Type 0 where
  value_error key_error invalid_job_state lease_conflict integrity_error : Error
  overflow_error assertion_error permission_error policy_config_error : Error
  payload_resolution_error attribute_error runtime_error type_error recursion_error : Error

-- what a call comes to: a value, or the exception that it raised
pub data Result {ℓ} (V : Type ℓ) : Type ℓ where
  ok : V → Result V
  err : Error → Result V

-- an exception ends the rest of the body
infixl 5 ◌>>=◌
abbrev pub ◌>>=◌ {ℓ μ} : {V : Type ℓ} {W : Type μ} → Result V → (V → Result W) → Result W
err x >>= body = err x
ok v >>= body = body v

-- `if not b: raise x`
abbrev pub guard : Bool → Error → Result (Unit {0})
guard false x = err x
guard true x = ok tt

infixl 5 ◌>>◌
abbrev pub ◌>>◌ {μ} : {W : Type μ} → Result (Unit {0}) → Result W → Result W
first >> rest = first >>= λ done. rest

-- `if o is None: raise e`
abbrev pub require {ℓ} : {A : Type ℓ} → Option A → Error → Result A
require none e = err e
require (some a) e = ok a

module _ {ℓ} {A : Type ℓ} where
  abbrev pub is_ok : Result A → Bool
  is_ok (ok a) = true
  is_ok (err e) = false

  pub Result-cases : (r : Result A) → ((a : A) × (r ≡ ok a)) ⊎ ((e : Error) × (r ≡ err e))
  Result-cases (ok a) = inl (a, refl)
  Result-cases (err e) = inr (e, refl)

-- a body that returns got past its first step
pub >>=-eq-ok {ℓ κ} :
    {A : Type ℓ} {B : Type κ} (first : Result A) (body : A → Result B) {b : B}
    → (first >>= body) ≡ ok b
    → (a : A) × (first ≡ ok a) × (body a ≡ ok b)
>>=-eq-ok (ok a) body h = (a, refl, h)
>>=-eq-ok (err x) body h = cc
