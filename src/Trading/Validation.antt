-- ===== src/Trading/Validation.antt =====
-- Which signals the business rules accept.
use crypto_auto_trader.Base.{◌≡◌, ◌↔◌, true, false, some, arith}
use crypto_auto_trader.Text.{text_in}
use crypto_auto_trader.Numbers.{decimal_lt}
use crypto_auto_trader.Errors.{ok}
use crypto_auto_trader.Host.{Host}
use crypto_auto_trader.Payload.{Payload}
use crypto_auto_trader.Config.{allowed_symbols}
use crypto_auto_trader.Trading.{validate_signal}

-- A signal passes the business rules exactly when its symbol is one of the allowed ones and its
-- quantity is neither below the minimum nor above the maximum; the comparisons are exact decimals.
pub validate_signal_iff :
    (host : Host) (payload : Payload)
    → (validate_signal host payload ≡ ok tt) ↔ (
        (text_in payload.symbol (allowed_symbols host.upper_char host.settings.allowed_symbols)
          ≡ true)
        × (decimal_lt payload.quantity host.settings.min_order_quantity ≡ some false)
        × (decimal_lt host.settings.max_order_quantity payload.quantity ≡ some false))
unfolding validate_signal
validate_signal_iff host payload = ground arith
