-- ===== src/Models.antt =====
-- The ORM models of app/db/models.py: the two enumerations, the status sets, and the rows of the
-- tables `users` and `trades`. Timestamps are numbers of milliseconds.
pub mod Status
use crypto_auto_trader.Base.{ℕ, Bool, List, [], ◌∷◌, Option, ◌==◌, any}
use crypto_auto_trader.Base.Int.{ℤ}
use crypto_auto_trader.Text.{Text, text}
use crypto_auto_trader.Numbers.{Decimal}

pub data OrderSide : Type 0 where
  buy sell : OrderSide

-- `OrderSide.value`
unfoldable pub side_value : OrderSide → Text
side_value OrderSide.buy = text "BUY"
side_value OrderSide.sell = text "SELL"

pub data TradeStatus : Type 0 where
  pending unknown new partially_filled filled cancelled rejected expired failed : TradeStatus

-- `TradeStatus.value`
unfoldable pub status_value : TradeStatus → Text
status_value TradeStatus.pending = text "PENDING"
status_value TradeStatus.unknown = text "UNKNOWN"
status_value TradeStatus.new = text "NEW"
status_value TradeStatus.partially_filled = text "PARTIALLY_FILLED"
status_value TradeStatus.filled = text "FILLED"
status_value TradeStatus.cancelled = text "CANCELLED"
status_value TradeStatus.rejected = text "REJECTED"
status_value TradeStatus.expired = text "EXPIRED"
status_value TradeStatus.failed = text "FAILED"

abbrev status_index : TradeStatus → ℕ
status_index TradeStatus.pending = 0
status_index TradeStatus.unknown = 1
status_index TradeStatus.new = 2
status_index TradeStatus.partially_filled = 3
status_index TradeStatus.filled = 4
status_index TradeStatus.cancelled = 5
status_index TradeStatus.rejected = 6
status_index TradeStatus.expired = 7
status_index TradeStatus.failed = 8

-- `a == b` on statuses
abbrev pub status_eq : TradeStatus → TradeStatus → Bool
status_eq a b = status_index a == status_index b

-- `status in statuses`
abbrev pub status_in : TradeStatus → List TradeStatus → Bool
status_in s = any (status_eq s)

abbrev pub terminal_statuses : List TradeStatus
terminal_statuses =
    TradeStatus.filled ∷ TradeStatus.cancelled ∷ TradeStatus.rejected ∷ TradeStatus.expired
    ∷ TradeStatus.failed ∷ []

abbrev pub reconcilable_statuses : List TradeStatus
reconcilable_statuses =
    TradeStatus.pending ∷ TradeStatus.unknown ∷ TradeStatus.new ∷ TradeStatus.partially_filled ∷ []

pub record User : Type 0 where
  pub id : ℕ
  pub email : Text
  pub password_hash : Text
  pub is_active : Bool
  pub created_at : ℕ
  pub updated_at : ℕ

pub record Trade : Type 0 where
  pub id : ℕ
  pub user_id : ℕ
  pub signal_id : Text
  pub client_order_id : Text
  pub symbol : Text
  pub side : OrderSide
  pub order_type : Text
  pub quantity : Decimal
  pub status : TradeStatus
  pub binance_order_id : Option ℤ
  pub binance_status : Option Text
  pub executed_quantity : Option Decimal
  pub cumulative_quote_quantity : Option Decimal
  pub error_code : Option Text
  pub error_message : Option Text
  pub submitted_at : Option ℕ
  pub reconciled_at : Option ℕ
  pub created_at : ℕ
  pub updated_at : ℕ

-- `Trade.is_terminal`
unfoldable pub is_terminal : Trade → Bool
is_terminal t = status_in t.status terminal_statuses
