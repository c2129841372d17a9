-- ===== src/Prelude/Result.antt =====
-- Python's exceptions as values: what a call returns, or the exception that leaves it.
use Prim.Native.String.{String}
use mathlib.Core.Path.{◌≡◌, refl}
use mathlib.Core.Bool.{Bool, true, false}

-- `ValueError` carries its message; the platform's own errors are those of core/exceptions.py and testnet/binance.py.
pub data Error : Type 0 where
  value_error : String → Error
  assertion_error : Error
  key_error : Error
  type_error : Error
  zero_division : Error
  market_type_mismatch : Error
  clock_drift : Error
  testnet_rejected : Error
  testnet_retryable : Error

pub data Result {κ} (V : Type κ) : Type κ where
  err : Error → Result V
  ok : V → Result V

-- The call returns, and what it returns meets the predicate: a raised exception does not.
abbrev pub Returns {κ} : {V : Type κ} → (V → Type 0) → Result V → Type 0
Returns P (err raised) = ⊥
Returns P (ok value) = P value

-- What a call returns, if it returns.
abbrev pub Given {κ} : {V : Type κ} → (V → Type 0) → Result V → Type 0
Given P (err raised) = Unit
Given P (ok value) = P value

-- `if c: raise e`
abbrev pub raise_if : Bool → Error → Result (Unit {0})
raise_if false raised = ok tt
raise_if true raised = err raised

-- The next statement, which a raised exception skips.
infixl 5 ◌>>=◌
abbrev pub ◌>>=◌ {κ μ} : {V : Type κ} {W : Type μ} → Result V → (V → Result W) → Result W
err raised >>= next = err raised
ok value >>= next = next value

infixl 5 ◌>>◌
abbrev pub ◌>>◌ {μ} : {W : Type μ} → Result (Unit {0}) → Result W → Result W
statement >> rest = statement >>= λ nothing. rest

pub Given-bind :
    {V W : Type 0} (r : Result V) (next : V → Result W) (P : W → Type 0)
    → ((value : V) → r ≡ ok value → Given P (next value))
    → Given P (r >>= next)
Given-bind (err raised) next P h = tt
Given-bind (ok value) next P h = h value refl
