-- ===== src/Webhook.antt =====
-- app/api/routes/webhook.py: the route of the TradingView webhook, from the validated payload on,
-- and app/schemas/trade.py: what a client sees of a trade.
pub mod Gate
pub mod Refusals
use crypto_auto_trader.Base.{ℕ, Bool, true, false, ◌||◌, Option, none, some, if◌then◌else◌}
use crypto_auto_trader.Base.Int.{ℤ}
use crypto_auto_trader.Text.{Text, text}
use crypto_auto_trader.Numbers.{Decimal, format_decimal}
use crypto_auto_trader.Models.{OrderSide, TradeStatus, Trade}
use crypto_auto_trader.Errors.{AppErrorClass, Exc, Result, ok, err}
use crypto_auto_trader.Security.{secrets_match}
use crypto_auto_trader.Payload.{RawPayload, Payload, parse_payload}
use crypto_auto_trader.Host.{Host}
use crypto_auto_trader.World.{World, Exec, pure, raise, lift, ◌>>=◌, ◌>>◌}
use crypto_auto_trader.BinanceClient.{Client}
use crypto_auto_trader.Trading.{process_signal}

-- `TradeRead`: the decimals are texts, and the columns `user_id` stay inside.
pub record TradeRead : Type 0 where
  pub id : ℕ
  pub signal_id : Text
  pub client_order_id : Text
  pub symbol : Text
  pub side : OrderSide
  pub order_type : Text
  pub quantity : Text
  pub status : TradeStatus
  pub binance_order_id : Option ℤ
  pub binance_status : Option Text
  pub executed_quantity : Option Text
  pub cumulative_quote_quantity : Option Text
  pub error_code : Option Text
  pub error_message : Option Text
  pub submitted_at : Option ℕ
  pub reconciled_at : Option ℕ
  pub created_at : ℕ
  pub updated_at : ℕ

-- `_serialise_decimal`; the outer `none` is a `ValueError`.
unfoldable pub serialise_decimal : Option Decimal → Option (Option Text)
serialise_decimal none = some none
serialise_decimal (some d) = elim (format_decimal d) [ none ↦ none | some t ↦ some (some t) ]

abbrev build_read :
    Trade → Option Text → Option (Option Text) → Option (Option Text) → Result TradeRead
build_read t (some q) (some e) (some c) = ok (record {
  id = t.id;
  signal_id = t.signal_id;
  client_order_id = t.client_order_id;
  symbol = t.symbol;
  side = t.side;
  order_type = t.order_type;
  quantity = q;
  status = t.status;
  binance_order_id = t.binance_order_id;
  binance_status = t.binance_status;
  executed_quantity = e;
  cumulative_quote_quantity = c;
  error_code = t.error_code;
  error_message = t.error_message;
  submitted_at = t.submitted_at;
  reconciled_at = t.reconciled_at;
  created_at = t.created_at;
  updated_at = t.updated_at;
})
build_read t _ _ _ = err Exc.value_error

-- `TradeRead.model_validate(trade)`, serialised
unfoldable pub trade_read : Trade → Result TradeRead
unfolding serialise_decimal
trade_read t =
    build_read t (format_decimal t.quantity) (serialise_decimal t.executed_quantity)
      (serialise_decimal t.cumulative_quote_quantity)

module _ (host : Host) where
  -- `_authenticate_webhook`
  unfoldable pub authenticate_webhook : Option Text → Option Text → Result (Unit {0})
  authenticate_webhook header_secret body_secret =
      if secrets_match header_secret host.settings.webhook_secret
      then ok tt
      else if secrets_match body_secret host.settings.webhook_secret
      then ok tt
      else err (Exc.app AppErrorClass.authentication (text "Invalid or missing webhook secret."))

  abbrev pub payload_or_422 : Option Payload → Result Payload
  payload_or_422 none = err Exc.request_validation
  payload_or_422 (some p) = ok p

  -- `tradingview_webhook`, behind the schema; the answer is the trade as a client sees it.
  unfoldable pub tradingview_webhook : Client → RawPayload → Option Text → Exec TradeRead
  tradingview_webhook client raw x_webhook_secret = do
    payload ← lift (payload_or_422 (parse_payload host.upper_char raw))
    lift (authenticate_webhook x_webhook_secret payload.secret)
    trade ← process_signal host client payload
    lift (trade_read trade)
