-- ===== src/Tests/Executes.antt =====
-- A queued trade whose order is filled at once.
use crypto_auto_trader.Base.{arith, ◌≡◌, refl, none, some, [], ◌∷◌}
use crypto_auto_trader.Base.Int.{pos}
use crypto_auto_trader.Text.{Text, text, text_eq, split, strip, upper}
use crypto_auto_trader.Numbers.{format_decimal, decimal_lt}
use crypto_auto_trader.Json.{Json, Fields}
use crypto_auto_trader.Models.{Trade, side_value}
use crypto_auto_trader.Errors.{ok}
use crypto_auto_trader.Config.{allowed_binance_hosts, allowed_symbols}
use crypto_auto_trader.Host.{Host, Transport}
use crypto_auto_trader.World.{World, ◌>>=◌, send}
use crypto_auto_trader.Binance.{BinanceOrderResult, handle_transport, from_payload, int_of}
use crypto_auto_trader.BinanceClient.{assert_testnet, place_market_order, request}
use crypto_auto_trader.BinanceClient.Placed.{order_sent}
use crypto_auto_trader.Trading.{validate_signal, process_signal, claim_for_submission, place_order}
use crypto_auto_trader.Trading.Signal.{new_row}
use crypto_auto_trader.Executor.{worker_round}
use crypto_auto_trader.Executor.Executes.{sent_row, sending, executed_row, worker_executes}
use crypto_auto_trader.Payload.{Payload}
use crypto_auto_trader.Program.Delivered.{queued_state, accepted_signal_is_executed}
use crypto_auto_trader.Tests.Data.{host, client, world, world_of, pending, half, alice, payload_of}

abbrev filled_fields : Fields
filled_fields =
    Fields.field (text "orderId") (Json.int (pos 7))
      (Fields.field (text "status") (Json.str (text "FILLED")) Fields.end)

abbrev filling_host : Host
filling_host = record host {
  reply = λ before r.
      Transport.response
        (record { status_code = 200; retry_after = none; json = some (Json.obj filled_fields) });
}

abbrev filled : BinanceOrderResult
filled = record {
  order_id = some (pos 7);
  client_order_id = [];
  symbol = [];
  side = [];
  status = text "FILLED";
  executed_quantity = half;
  cumulative_quote_quantity = half;
  raw = filled_fields;
}

abbrev queued : World
queued = record world { queue = (1, text "r9") ∷ [] }

order_filled :
    (place_order filling_host client
      (sent_row 90000 pending)
      (sending [] pending [] [] (text "r9") queued)).0
    ≡ ok filled
unfolding place_order ◌>>=◌ place_market_order assert_testnet request send handle_transport
    from_payload int_of text_eq format_decimal allowed_binance_hosts
order_filled = refl

worker_executes_example :
    let w' = (worker_round filling_host client queued).1 in
    (claim_for_submission filling_host 1 (record queued { queue = []; request_id = text "r9" })
      ≡ (ok (some (sent_row 90000 pending)), sending [] pending [] [] (text "r9") queued))
    × (w'.queue ≡ [])
    × (w'.db.trades ≡ executed_row filled 90000 pending ∷ [])
    × ((q : Text) × (format_decimal half ≡ some q)
        × (w'.requests
            ≡ order_sent filling_host client (text "BTCUSDT") (text "BUY") q (text "cat-s1") 90000
              ∷ []))
unfolding side_value
worker_executes_example =
    worker_executes filling_host client pending [] [] queued (text "r9") [] filled (λ n. refl) refl
      refl refl refl refl order_filled

-- A service with an account, whose exchange fills the order of a signal.
abbrev idle : World
idle = world_of (alice ∷ []) []

abbrev signal : Payload
signal = payload_of (text "s2")

abbrev new : Trade
new = new_row filling_host client signal 1 idle

abbrev at_order : World
at_order = sending [] new [] [] (text "r1") (queued_state filling_host client signal 1 idle)

signal_valid : validate_signal filling_host signal ≡ ok tt
unfolding validate_signal allowed_symbols split text_eq strip upper decimal_lt
signal_valid = refl

exchange_answer : (place_order filling_host client (sent_row 90000 new) at_order).0 ≡ ok filled
unfolding place_order ◌>>=◌ place_market_order assert_testnet request send handle_transport
    from_payload int_of text_eq format_decimal allowed_binance_hosts
exchange_answer = refl

accepted_signal_is_executed_example :
    let w' =
      (worker_round filling_host client (process_signal filling_host client signal idle).1).1 in
    (claim_for_submission filling_host 2
        (record (queued_state filling_host client signal 1 idle) { queue = [] })
      ≡ (ok (some (sent_row 90000 new)), at_order))
    × (w'.queue ≡ [])
    × (w'.db.trades ≡ executed_row filled 90000 new ∷ [])
    × ((q : Text) × (format_decimal half ≡ some q)
        × (w'.requests
            ≡ order_sent filling_host client (text "BTCUSDT") (text "BUY") q (text "cat-s2") 90000
              ∷ []))
unfolding side_value
accepted_signal_is_executed_example =
    accepted_signal_is_executed filling_host client signal 1 idle filled refl signal_valid refl
      (λ n. refl) refl refl tt refl (omega arith) exchange_answer
