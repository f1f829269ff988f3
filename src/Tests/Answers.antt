-- ===== src/Tests/Answers.antt =====
-- Runs of the exchange client and of the reconciliation.
use crypto_auto_trader.Base.{◌≡◌, ◌↔◌, refl, true, false, none, some}
use crypto_auto_trader.Text.{text_eq}
use crypto_auto_trader.Models.{TradeStatus, is_terminal}
use crypto_auto_trader.Errors.{BinanceErrorClass, ok}
use crypto_auto_trader.Host.{Transport, Host}
use crypto_auto_trader.World.{◌>>=◌, commit, send}
use crypto_auto_trader.World.Places.{post_count}
use crypto_auto_trader.Binance.{handle_transport, handle_response}
use crypto_auto_trader.Binance.Outcomes.{
  class_of, IsLost, raises_rejected, uncertain_iff_IsLost, rejected_iff_refusal,
}
use crypto_auto_trader.BinanceClient.{request, found_order, get_order}
use crypto_auto_trader.BinanceClient.Answers.{is_no_order, no_order_iff}
use crypto_auto_trader.Outcomes.{not_found_changes}
use crypto_auto_trader.Reconciliation.{
  save, record_answer, reconcile_trade, reconcile_pending_trades,
}
use crypto_auto_trader.Reconciliation.ReadOnly.{reconcile_pending_trades_places_nothing}
use crypto_auto_trader.Reconciliation.Answers.{failed_only_if_no_order}
use crypto_auto_trader.Tests.Data.{host, host_with, client, world, pending, no_order_response}

uncertain_iff_IsLost_example :
    (class_of (handle_transport host Transport.timeout) ≡ some BinanceErrorClass.uncertain)
    ↔ IsLost Transport.timeout
uncertain_iff_IsLost_example = uncertain_iff_IsLost host Transport.timeout

rejected_iff_refusal_example :
    raises_rejected (handle_transport host (Transport.response no_order_response)) ≡ true
rejected_iff_refusal_example = rejected_iff_refusal host (Transport.response no_order_response)

no_order_iff_example :
    is_no_order (found_order host (handle_transport host (Transport.response no_order_response)))
    ≡ true
unfolding text_eq
no_order_iff_example = no_order_iff host (Transport.response no_order_response)

-- The exchange refuses the query with "no such order".
abbrev pub without_order : Host
without_order = host_with (Transport.response no_order_response)

settled :
    (reconcile_trade without_order client pending world).0 ≡ ok (not_found_changes 90000 pending)
unfolding reconcile_trade is_terminal get_order request handle_transport handle_response found_order
    record_answer save send commit ◌>>=◌ text_eq
settled = refl

failed : (not_found_changes 90000 pending).status ≡ TradeStatus.failed
unfolding not_found_changes
failed = refl

pub open_trade : is_terminal pending ≡ false
unfolding is_terminal
open_trade = refl

failed_only_if_no_order_example :
    (get_order without_order client pending.symbol pending.client_order_id world).0 ≡ ok none
failed_only_if_no_order_example =
    failed_only_if_no_order without_order client pending (not_found_changes 90000 pending) world
      open_trade settled failed

reconcile_pending_trades_places_nothing_example :
    post_count (reconcile_pending_trades without_order client 60 10 world).1.requests ≡ 0
reconcile_pending_trades_places_nothing_example =
    reconcile_pending_trades_places_nothing without_order client 60 10 world
