-- ===== src/Outcomes.antt =====
-- The mapping of Binance's statuses, and the columns that an outcome writes into a trade's row
-- (app/services/trading_service.py). Each change is a function on rows: a flush applies it to the
-- row in the table, and the object in memory changes in the same way.
pub mod Keeps
use crypto_auto_trader.Base.{ℕ, Option, none, some, List, [], ◌∷◌, ◌++◌, Bool, if◌then◌else◌, take}
use crypto_auto_trader.Text.{Text, text, get}
use crypto_auto_trader.Json.{Json, is_null}
use crypto_auto_trader.Models.{TradeStatus, status_in, Trade}
use crypto_auto_trader.Errors.{BinanceErrorClass, BinanceError}
use crypto_auto_trader.Host.{Host}
use crypto_auto_trader.Binance.{BinanceOrderResult, str_of}

unfoldable pub binance_status_map : List (Text × TradeStatus)
binance_status_map =
    (text "NEW", TradeStatus.new)
    ∷ (text "PARTIALLY_FILLED", TradeStatus.partially_filled)
    ∷ (text "FILLED", TradeStatus.filled)
    ∷ (text "CANCELED", TradeStatus.cancelled)
    ∷ (text "PENDING_CANCEL", TradeStatus.cancelled)
    ∷ (text "REJECTED", TradeStatus.rejected)
    ∷ (text "EXPIRED", TradeStatus.expired)
    ∷ (text "EXPIRED_IN_MATCH", TradeStatus.expired)
    ∷ (text "DRY_RUN_VALIDATED", TradeStatus.filled)
    ∷ []

abbrev status_or_new : Option TradeStatus → TradeStatus
status_or_new (some s) = s
status_or_new none = TradeStatus.new

-- `BINANCE_STATUS_MAP.get(status, TradeStatus.NEW)`
unfoldable pub map_status : Text → TradeStatus
map_status s = status_or_new (get s binance_status_map)

-- The assignments of `_finalise_success`; `now` is the `onupdate` of `updated_at`.
unfoldable pub success_changes : BinanceOrderResult → ℕ → Trade → Trade
success_changes result now t = record t {
  binance_order_id = result.order_id;
  binance_status = some result.status;
  executed_quantity = some result.executed_quantity;
  cumulative_quote_quantity = some result.cumulative_quote_quantity;
  status = map_status result.status;
  error_code = none;
  error_message = none;
  updated_at = now;
}

-- The assignments of `_finalise_failure`.
unfoldable pub failure_changes : TradeStatus → Text → Text → ℕ → Trade → Trade
failure_changes status error_code error_message now t = record t {
  status = status;
  error_code = some (take 64 error_code);
  error_message = some error_message;
  updated_at = now;
}

-- `str(exc.code) if exc.code is not None else default`
abbrev pub code_or : Host → Json → Text → Text
code_or host code default = if is_null code then default else str_of host code

-- The assignments of `_handle_uncertain_outcome`.
unfoldable pub uncertain_changes : Host → BinanceError → ℕ → Trade → Trade
uncertain_changes host e now t = record t {
  status = TradeStatus.unknown;
  error_code = some (code_or host e.code (text "uncertain"));
  error_message = some e.message;
  updated_at = now;
}

-- The branch of `reconcile_trade` for an order that does not exist.
unfoldable pub not_found_changes : ℕ → Trade → Trade
not_found_changes now t = record t {
  status = TradeStatus.failed;
  error_code = some (text "order_not_found");
  error_message = some (
      text
        "Binance has no order with this client order id; the submission never reached the exchange.");
  reconciled_at = some now;
  updated_at = now;
}

-- The branch of `reconcile_trade` for an order that exists.
unfoldable pub found_changes : BinanceOrderResult → ℕ → Trade → Trade
found_changes result now t =
    let status = map_status result.status in
    let kept = status_in status (TradeStatus.rejected ∷ TradeStatus.failed ∷ []) in
    record t {
      binance_order_id = result.order_id;
      binance_status = some result.status;
      executed_quantity = some result.executed_quantity;
      cumulative_quote_quantity = some result.cumulative_quote_quantity;
      status = status;
      error_code = if kept then t.error_code else none;
      error_message = if kept then t.error_message else none;
      reconciled_at = some now;
      updated_at = now;
    }

-- The columns that the claim writes.
unfoldable pub claim_changes : ℕ → Trade → Trade
claim_changes now t = record t { submitted_at = some now; updated_at = now }
