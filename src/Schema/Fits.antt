-- ===== src/Schema/Fits.antt =====
-- The texts and the quantity of a new trade beside the columns that are to hold them.
use crypto_auto_trader.Base.{
  ℕ, ◌-◌, ◌^◌, true, false, ◌≤◌, ◌≡◌, some, List, [], ◌∷◌, length, if◌then◌else◌,
}
use crypto_auto_trader.Text.{Text, text, text_eq}
use crypto_auto_trader.Base.Int.{pos}
use crypto_auto_trader.Numbers.{Decimal, decimal_lt}
use crypto_auto_trader.Numbers.Order.{absolute}
use crypto_auto_trader.Models.{side_value, Trade}
use crypto_auto_trader.Host.{Host}
use crypto_auto_trader.Payload.{Payload, decimal_places}
use crypto_auto_trader.Schema.{ColumnType, Column}

abbrev width_of : ColumnType → ℕ
width_of (ColumnType.varchar n) = n
width_of (ColumnType.enumeration _ n) = n
width_of _ = 0

abbrev scale_of : ColumnType → ℕ
scale_of (ColumnType.numeric _ s) = s
scale_of _ = 0

-- The digits before the decimal point.
abbrev whole_of : ColumnType → ℕ
whole_of (ColumnType.numeric p s) = p - s
whole_of _ = 0

abbrev type_of : Text → List Column → ColumnType
type_of name [] = ColumnType.unbounded
type_of name (c ∷ cs) = if text_eq c.name name then c.type else type_of name cs

-- The longest text that a column of a table holds.
unfoldable pub width : Text → List Column → ℕ
unfolding text_eq
width name columns = width_of (type_of name columns)

-- The decimal places that a column of a table keeps.
unfoldable pub scale : Text → List Column → ℕ
unfolding text_eq
scale name columns = scale_of (type_of name columns)

-- The digits before the decimal point that a column of a table holds.
unfoldable pub whole : Text → List Column → ℕ
unfolding text_eq
whole name columns = whole_of (type_of name columns)

-- A row of trades that the columns hold as it is, neither refused nor rounded.
pub record Fits (columns : List Column) (t : Trade) : Type 0 where
  pub signal_id : length t.signal_id ≤ width (text "signal_id") columns
  pub client_order_id : length t.client_order_id ≤ width (text "client_order_id") columns
  pub symbol : length t.symbol ≤ width (text "symbol") columns
  pub side : length (side_value t.side) ≤ width (text "side") columns
  pub order_type : length t.order_type ≤ width (text "order_type") columns
  pub quantity : decimal_places t.quantity ≤ scale (text "quantity") columns
  pub quantity_whole :
      decimal_lt
        (absolute t.quantity)
        (Decimal.finite false (10 ^ whole (text "quantity") columns) (pos 0))
      ≡ some true
