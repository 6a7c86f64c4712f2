-- ===== src/Errors.antt =====
-- The exceptions that the Python code raises or catches, and computations that may raise
-- (services/api/app/market/service.py, services/api/app/providers/market.py).
use mathlib.Core.Path.{subst}
use event_alpha.Prelude.{String, Bool, true, false, ◌≡◌, refl}

-- `connection_error`, `timeout_error` and `transient_market_provider_error` are the members of
-- `TRANSIENT_MARKET_ERRORS`. `other` is any exception that no `except` clause of the code names,
-- with the name of its class.
pub data Exc : Type 0 where
  value_error runtime_error stop_async_iteration : Exc
  key_error : String → Exc
  connection_error timeout_error transient_market_provider_error market_provider_error : Exc
  market_persistence_error : Exc → Exc
  other : String → Exc

-- isinstance(error, TRANSIENT_MARKET_ERRORS)
unfoldable pub is_transient : Exc → Bool
is_transient connection_error = true
is_transient timeout_error = true
is_transient transient_market_provider_error = true
is_transient _ = false

-- type(error).__name__
unfoldable pub type_name : Exc → String
type_name value_error = "ValueError"
type_name runtime_error = "RuntimeError"
type_name stop_async_iteration = "StopAsyncIteration"
type_name (key_error key) = "KeyError"
type_name connection_error = "ConnectionError"
type_name timeout_error = "TimeoutError"
type_name transient_market_provider_error = "TransientMarketProviderError"
type_name market_provider_error = "MarketProviderError"
type_name (market_persistence_error cause) = "MarketPersistenceError"
type_name (other name) = name

-- What a call comes to: an exception that it raises, or the value that it returns.
pub data Result {ℓ} (A : Type ℓ) : Type ℓ where
  err : Exc → Result A
  ok : A → Result A

module _ {ℓ κ} {A : Type ℓ} {B : Type κ} where
  infixl 5 ◌>>=◌
  abbrev pub ◌>>=◌ : (r : Result A) (rest : A → Result B) → Result B
  err error >>= rest = err error
  ok value >>= rest = rest value

module _ {ℓ} {A : Type ℓ} where
  infixl 5 ◌>>◌
  abbrev pub ◌>>◌ : (r : Result (Unit {0})) (rest : Result A) → Result A
  err error >> rest = err error
  ok _ >> rest = rest

-- `if not test: raise error`
abbrev pub require : Bool → Exc → Result (Unit {0})
require false error = err error
require true error = ok tt

-- What holds of the value where a computation returns.
abbrev pub Gives : {A : Type 0} → (A → Type 0) → Result A → Type 0
Gives P (err error) = Unit
Gives P (ok a) = P a

pub require-Gives :
    {A : Type 0} (P : A → Type 0) (test : Bool) (error : Exc) (rest : Result A)
    → (test ≡ true → Gives P rest)
    → Gives P (require test error >> rest)
require-Gives P false error rest h = tt
require-Gives P true error rest h = h refl

pub bind-Gives :
    {A B : Type 0} (P : B → Type 0) (r : Result A) (rest : A → Result B)
    → ((a : A) → Gives P (rest a))
    → Gives P (r >>= rest)
bind-Gives P (err error) rest h = tt
bind-Gives P (ok a) rest h = h a

pub Gives-ok : {A : Type 0} (P : A → Type 0) (r : Result A) (a : A) → Gives P r → r ≡ ok a → P a
Gives-ok P r a h e = subst (Gives P) e h
