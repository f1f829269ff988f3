-- ===== src/Executor/Drain.antt =====
-- The work of the queue ends.
use crypto_auto_trader.Base.{ℕ, ◌≡◌, refl, Bool, Option, none, some, List, [], ◌∷◌, drop}
use crypto_auto_trader.Text.{Text}
use crypto_auto_trader.Json.{Json}
use crypto_auto_trader.Models.{Trade, TradeStatus}
use crypto_auto_trader.Errors.{BinanceErrorClass, BinanceError, Exc, Result, ok, err}
use crypto_auto_trader.Host.{Host, Method}
use crypto_auto_trader.World.{World}
use crypto_auto_trader.World.Queue.{LeavesQueue, queue_rules}
use crypto_auto_trader.Binance.{BinanceOrderResult}
use crypto_auto_trader.BinanceClient.{Client, request, place_market_order, get_order}
use crypto_auto_trader.Reconciliation.{save, record_answer, reconcile_trade}
use crypto_auto_trader.Trading.{
  claim_for_submission, keep_trade, handle_uncertain_outcome, finalise_success, finalise_failure,
  failure_of, record_outcome, place_order, submit_to_binance,
}
use crypto_auto_trader.Executor.{submit_won, execute, run_item, worker_round}

module _ (host : Host) (client : Client) where
  LeavesQueue-request :
      (method : Method) (path : Text) (params : List (Text × Json)) (signed : Bool)
      → LeavesQueue (request host client method path params signed)
  unfolding request
  LeavesQueue-request method path params signed = search queue_rules

  LeavesQueue-get_order :
      (symbol client_order_id : Text) → LeavesQueue (get_order host client symbol client_order_id)
  unfolding get_order
  LeavesQueue-get_order symbol client_order_id = search (queue_rules, LeavesQueue-request)

  LeavesQueue-place_order : (trade : Trade) → LeavesQueue (place_order host client trade)
  unfolding place_order place_market_order
  LeavesQueue-place_order trade = search (queue_rules, LeavesQueue-request)

  LeavesQueue-save : (trade : Trade) (f : Trade → Trade) → LeavesQueue (save host trade f)
  unfolding save
  LeavesQueue-save trade f = search queue_rules

  LeavesQueue-record_answer :
      (trade : Trade) (r : Result (Option BinanceOrderResult))
      → LeavesQueue (record_answer host trade r)
  unfolding record_answer
  LeavesQueue-record_answer trade (ok none) = search (queue_rules, LeavesQueue-save)
  LeavesQueue-record_answer trade (ok (some result)) = search (queue_rules, LeavesQueue-save)
  LeavesQueue-record_answer trade (err (Exc.binance e)) = search queue_rules
  LeavesQueue-record_answer trade (err e) = search queue_rules

  LeavesQueue-reconcile_trade : (trade : Trade) → LeavesQueue (reconcile_trade host client trade)
  unfolding reconcile_trade
  LeavesQueue-reconcile_trade trade =
      search (queue_rules, LeavesQueue-get_order, LeavesQueue-record_answer)

  LeavesQueue-keep_trade :
      (trade : Trade) (r : Result Trade) → LeavesQueue (keep_trade host trade r)
  LeavesQueue-keep_trade trade (ok t) = search queue_rules
  LeavesQueue-keep_trade trade (err e) = search queue_rules

  LeavesQueue-handle_uncertain_outcome :
      (trade : Trade) (e : BinanceError)
      → LeavesQueue (handle_uncertain_outcome host client trade e)
  unfolding handle_uncertain_outcome
  LeavesQueue-handle_uncertain_outcome trade e =
      search (queue_rules, LeavesQueue-save, LeavesQueue-reconcile_trade, LeavesQueue-keep_trade)

  LeavesQueue-finalise_failure :
      (trade : Trade) (s : TradeStatus) (code message : Text)
      → LeavesQueue (finalise_failure host trade s code message)
  unfolding finalise_failure
  LeavesQueue-finalise_failure trade s code message = search (queue_rules, LeavesQueue-save)

  LeavesQueue-failure_of :
      (c : BinanceErrorClass) (trade : Trade) (e : BinanceError)
      → LeavesQueue (failure_of host c client trade e)
  LeavesQueue-failure_of BinanceErrorClass.uncertain trade e =
      search (LeavesQueue-handle_uncertain_outcome)
  LeavesQueue-failure_of _ trade e = search (LeavesQueue-finalise_failure)

  LeavesQueue-record_outcome :
      (trade : Trade) (r : Result BinanceOrderResult)
      → LeavesQueue (record_outcome host client trade r)
  unfolding record_outcome finalise_success
  LeavesQueue-record_outcome trade (ok r) = search (queue_rules, LeavesQueue-save)
  LeavesQueue-record_outcome trade (err (Exc.binance e)) = search (LeavesQueue-failure_of)
  LeavesQueue-record_outcome trade (err e) = search queue_rules

  LeavesQueue-submit_won : (o : Option Trade) → LeavesQueue (submit_won host client o)
  unfolding submit_to_binance
  LeavesQueue-submit_won none = search queue_rules
  LeavesQueue-submit_won (some trade) =
      search (queue_rules, LeavesQueue-place_order, LeavesQueue-record_outcome)

  LeavesQueue-execute : (k : ℕ) → LeavesQueue (execute host client k)
  unfolding execute claim_for_submission
  LeavesQueue-execute k = search (queue_rules, LeavesQueue-submit_won)

  queue-run_item :
      (items : List (ℕ × Text)) (w : World)
      → w.queue ≡ items
      → (run_item host client items w).1.queue ≡ drop 1 items
  queue-run_item [] w e = e
  queue-run_item ((k, request_id) ∷ rest) w e =
      (LeavesQueue-execute k).same (record w { queue = rest; request_id = request_id })

  pub queue-worker_round : (w : World) → (worker_round host client w).1.queue ≡ drop 1 w.queue
  unfolding worker_round
  queue-worker_round w = queue-run_item w.queue w refl
