-- ===== src/Payload.antt =====
-- app/schemas/webhook.py: the validators of the webhook's payload. Pydantic's own work is taken as
-- done: the JSON has the four fields with their types, no other keys, and `action` a string.
pub mod Format
use crypto_auto_trader.Base.{
  ℕ, ◌≤◌, Bool, true, false, not, ◌&&◌, ◌||◌, Option, none, some, List, [], ◌∷◌, ltb, leb, ◌==◌,
  if◌then◌else◌, all, length,
}
use crypto_auto_trader.Base.Int.{ℤ, neg_part}
use crypto_auto_trader.Text.{Text, text, text_eq, strip, upper}
use crypto_auto_trader.Numbers.{Decimal, zero_decimal, is_finite, decimal_lt}
use crypto_auto_trader.Models.{OrderSide}

-- The fields as they were sent.
pub record RawPayload : Type 0 where
  pub signal_id : Text
  pub symbol : Text
  pub action : Text
  pub quantity : Decimal
  pub secret : Option Text

-- `TradingViewWebhookPayload`
pub record Payload : Type 0 where
  pub signal_id : Text
  pub symbol : Text
  pub action : OrderSide
  pub quantity : Decimal
  pub secret : Option Text

abbrev pub between : ℕ → ℕ → ℕ → Bool
between lo hi c = leb lo c && leb c hi

-- The character class of `SIGNAL_ID_PATTERN`.
abbrev pub signal_id_char : ℕ → Bool
signal_id_char c =
    between b'A' b'Z' c
    || between b'a' b'z' c
    || between b'0' b'9' c
    || (c == b'_')
    || (c == b'.')
    || (c == b':')
    || (c == b'-')

-- The character class of `SYMBOL_PATTERN`.
abbrev pub symbol_char : ℕ → Bool
symbol_char c = between b'A' b'Z' c || between b'0' b'9' c

-- `SIGNAL_ID_PATTERN.fullmatch(value)`
unfoldable pub signal_id_match : Text → Bool
signal_id_match v = all signal_id_char v && between 1 64 (length v)

-- `SYMBOL_PATTERN.fullmatch(value)`
unfoldable pub symbol_match : Text → Bool
symbol_match v = all symbol_char v && between 5 20 (length v)

-- `_validate_signal_id`, behind the length limits of the field
unfoldable pub validate_signal_id : Text → Option Text
validate_signal_id value =
    let v = strip value in if between 1 64 (length value) && signal_id_match v then some v else none

-- `_validate_symbol`
unfoldable pub validate_symbol : (ℕ → Text) → Text → Option Text
validate_symbol table value =
    let v = upper table (strip value) in if symbol_match v then some v else none

-- `_normalise_action`, and the lookup of the enumeration's value
unfoldable pub validate_action : (ℕ → Text) → Text → Option OrderSide
validate_action table value =
    let v = upper table (strip value) in
    if text_eq v (text "BUY")
    then some OrderSide.buy
    else if text_eq v (text "SELL")
    then some OrderSide.sell
    else none

-- `-value.as_tuple().exponent`, cut off at 0
abbrev pub decimal_places : Decimal → ℕ
decimal_places (Decimal.finite _ _ e) = neg_part e
decimal_places _ = 0

abbrev is_true : Option Bool → Bool
is_true (some b) = b
is_true none = false

-- The field's `gt=0`, then `_validate_quantity`.
unfoldable pub validate_quantity : Decimal → Option Decimal
validate_quantity value =
    if not (is_true (decimal_lt zero_decimal value))
    then none
    else if not (is_finite value)
    then none
    else if ltb 12 (decimal_places value)
    then none
    else some value

abbrev make_payload :
    Option Text → Option Text → Option OrderSide → Option Decimal → Option Text → Option Payload
make_payload (some i) (some s) (some a) (some q) secret =
    some (record { signal_id = i; symbol = s; action = a; quantity = q; secret = secret })
make_payload _ _ _ _ _ = none

-- The model as a whole; `none` is a `RequestValidationError`.
unfoldable pub parse_payload : (ℕ → Text) → RawPayload → Option Payload
parse_payload table raw =
    make_payload (validate_signal_id raw.signal_id) (validate_symbol table raw.symbol)
      (validate_action table raw.action) (validate_quantity raw.quantity) raw.secret
