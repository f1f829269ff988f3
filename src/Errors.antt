-- ===== src/Errors.antt =====
-- The errors that the program raises: those of app/core/exceptions.py, those of the exchange
-- client, and those of the libraries that it lets through.
pub mod Envelope
use crypto_auto_trader.Base.{ℕ, Bool, true, false, Option, List, ◌≡◌, ◌⊎◌, inl, inr, refl}
use crypto_auto_trader.Base.Int.{ℤ}
use crypto_auto_trader.Text.{Text}
use crypto_auto_trader.Json.{Json}

-- The classes below `BinanceError`.
pub data BinanceErrorClass : Type 0 where
  rejected rate_limit auth unavailable uncertain : BinanceErrorClass

-- `code` is null where the source has None.
pub record BinanceError : Type 0 where
  pub class : BinanceErrorClass
  pub message : Text
  pub code : Json
  pub status_code : Option ℕ
  pub retry_after_seconds : Option ℤ

-- `isinstance(exc, BinanceRejectedError)`
abbrev pub is_rejected : BinanceErrorClass → Bool
is_rejected BinanceErrorClass.rejected = true
is_rejected BinanceErrorClass.rate_limit = true
is_rejected BinanceErrorClass.auth = true
is_rejected BinanceErrorClass.unavailable = false
is_rejected BinanceErrorClass.uncertain = false

-- The classes below `AppError`; a duplicate signal carries `existing_trade_id`.
pub data AppErrorClass : Type 0 where
  authentication authorization resource_not_found conflict email_already_registered : AppErrorClass
  duplicate_signal : Option ℕ → AppErrorClass
  business_validation configuration : AppErrorClass

-- What a call may raise: `value_error` stands for the errors of Python's conversions and of
-- `format_decimal`, `runtime_error` for the refusal of a host, `token_error` for `TokenError`.
pub data Exc : Type 0 where
  binance : BinanceError → Exc
  app : AppErrorClass → Text → Exc
  integrity_error sqlalchemy_error value_error runtime_error decimal_error : Exc
  request_validation : Exc
  http_exception : ℕ → Text → List (Text × Text) → Exc
  token_error : Text → Exc

pub data Result {ℓ} (A : Type ℓ) : Type ℓ where
  ok : A → Result A
  err : Exc → Result A

-- To split on a computed result and keep the equation.
pub Result-cases {ℓ} :
    {A : Type ℓ} (r : Result A) → ((a : A) × (r ≡ ok a)) ⊎ ((e : Exc) × (r ≡ err e))
Result-cases (ok a) = inl (a, refl)
Result-cases (err e) = inr (e, refl)
