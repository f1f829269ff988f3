-- ===== src/Tests/Whole.antt =====
-- Runs of the whole program: what it remembers, and what it never touches again.
use crypto_auto_trader.Base.{◌+◌, ◌≡◌, refl, true, some, List, [], ◌∷◌}
use crypto_auto_trader.Text.{text, text_eq}
use crypto_auto_trader.Models.{Trade, is_terminal}
use crypto_auto_trader.Errors.{AppErrorClass, Exc, ok, err}
use crypto_auto_trader.Errors.Envelope.{app_message}
use crypto_auto_trader.World.{World, ◌>>=◌, send, commit}
use crypto_auto_trader.Binance.{handle_transport, handle_response, from_payload, int_of}
use crypto_auto_trader.BinanceClient.{
  request, assert_testnet, place_market_order, found_order, get_order,
}
use crypto_auto_trader.Outcomes.{claim_changes, uncertain_changes, not_found_changes}
use crypto_auto_trader.Config.{allowed_binance_hosts}
use crypto_auto_trader.Numbers.{format_decimal}
use crypto_auto_trader.Store.{update_trade}
use crypto_auto_trader.Reconciliation.{
  save, record_answer, reconcile_trade, find_reconcilable_trades, reconcile_pending_trades,
}
use crypto_auto_trader.Trading.{
  pending_trade, process_signal, claim_for_submission, claim_update, handle_uncertain_outcome,
  record_outcome, place_order, submit_to_binance,
}
use crypto_auto_trader.Trading.Signal.{new_row}
use crypto_auto_trader.Trading.Accepted.{recorded, process_signal_queued}
use crypto_auto_trader.Executor.{execute, worker_round}
use crypto_auto_trader.Program.{Call, run, serve, serve_all}
use crypto_auto_trader.Program.Rows.{row_of}
use crypto_auto_trader.Program.Idempotency.{accepted_signal_stays_duplicate}
use crypto_auto_trader.Program.Final.{settled_trade_is_final}
use crypto_auto_trader.Tests.Data.{
  host, client, crypto, world, world_of, pending, alice, payload_of,
}
use crypto_auto_trader.Tests.Signals.{valid}
use crypto_auto_trader.Tests.Answers.{without_order}
use crypto_auto_trader.Tests.Orders.{world-IsKeyed}

-- A service with an account and no trade, and what it is after a signal.
abbrev empty : World
empty = world_of (alice ∷ []) []

abbrev row : Trade
row = new_row host client (payload_of (text "s2")) 1 empty

abbrev after_signal : World
after_signal = record (recorded host client (payload_of (text "s2")) 1 empty) {
  queue = (2, text "r1") ∷ [];
}

accepted : process_signal host client (payload_of (text "s2")) empty ≡ (ok row, after_signal)
accepted =
    process_signal_queued host client (payload_of (text "s2")) 1 empty refl (valid (text "s2")) refl
      refl refl refl

-- Time passes, and a worker has its round.
abbrev more : List Call
more = Call.incoming (text "r2") ∷ Call.tick 5 ∷ Call.work ∷ []

abbrev later : World
later = serve_all host crypto client more after_signal

owner_later : later.owner ≡ some 1
unfolding serve_all serve worker_round execute claim_for_submission claim_update ◌>>=◌ commit
    submit_to_binance place_order place_market_order assert_testnet request send handle_transport
    record_outcome handle_uncertain_outcome save reconcile_trade record_answer get_order found_order
    handle_response is_terminal text_eq pending_trade claim_changes allowed_binance_hosts
    format_decimal uncertain_changes from_payload int_of
owner_later = refl

accepted_signal_stays_duplicate_example :
    process_signal host client (payload_of (text "s2")) later ≡ (
      err (
          Exc.app
            (AppErrorClass.duplicate_signal (some 2))
            (app_message (AppErrorClass.duplicate_signal (some 2)))),
      record later { commits = later.commits + 1 },
    )
accepted_signal_stays_duplicate_example =
    accepted_signal_stays_duplicate host crypto client (payload_of (text "s2")) row empty
      after_signal more 1 accepted owner_later refl

-- A trade that was never sent is given up in a reconciliation run.
abbrev given_up : Trade
given_up = not_found_changes 90000 pending

abbrev before : List Call
before = Call.reconcile_run 60 10 ∷ []

abbrev after : List Call
after = Call.tick 5 ∷ Call.work ∷ Call.reconcile_one alice 1 ∷ Call.restart true ∷ []

is_given_up : row_of 1 (serve_all without_order crypto client before world) ≡ some given_up
unfolding serve_all serve run reconcile_pending_trades ◌>>=◌ find_reconcilable_trades
    reconcile_trade is_terminal record_answer get_order found_order request send handle_transport
    text_eq commit not_found_changes update_trade
is_given_up = refl

settled : is_terminal given_up ≡ true
unfolding is_terminal not_found_changes
settled = refl

settled_trade_is_final_example :
    row_of 1 (
      serve_all without_order crypto client after
        (serve_all without_order crypto client before world))
    ≡ some given_up
settled_trade_is_final_example =
    settled_trade_is_final without_order crypto client world before after 1 given_up
      (record { keyed = world-IsKeyed; no_requests = refl; no_jobs = refl }) is_given_up settled
