-- ===== src/Program/Delivered.antt =====
-- A signal from the webhook to the exchange and back into its row.
use crypto_auto_trader.Base.{
  ℕ, ◌≡◌, ◌<◌, refl, ap, ◌∙◌, true, false, some, List, [], ◌∷◌, ◌++◌, arith, any, All, length, ltb,
  take, if◌then◌else◌,
}
use crypto_auto_trader.Text.{Text, text}
use crypto_auto_trader.Numbers.{format_decimal}
use crypto_auto_trader.Models.{Trade, side_value}
use crypto_auto_trader.Errors.{ok}
use crypto_auto_trader.Host.{Host}
use crypto_auto_trader.Store.{has_id, trade_conflicts, user_exists}
use crypto_auto_trader.World.{World}
use crypto_auto_trader.Payload.{Payload}
use crypto_auto_trader.Binance.{BinanceOrderResult}
use crypto_auto_trader.BinanceClient.{Client}
use crypto_auto_trader.BinanceClient.Placed.{order_sent}
use crypto_auto_trader.Trading.{
  validate_signal, pending_trade, claim_for_submission, place_order, process_signal,
}
use crypto_auto_trader.Trading.Signal.{new_row}
use crypto_auto_trader.Trading.Accepted.{recorded, process_signal_queued}
use crypto_auto_trader.Executor.{worker_round}
use crypto_auto_trader.Executor.Executes.{sent_row, executed_row, sending, worker_executes}

no_such_id : (n : ℕ) (ts : List Trade) → All (λ t. t.id < n) ts → any (has_id n) ts ≡ false
no_such_id n [] h = refl
no_such_id n (t ∷ ts) h = ground (arith, no_such_id n ts h.1)

enqueued-empty {ℓ ℓ'} :
    {A : Type ℓ}
    → {B : Type ℓ'} → (q : List A) → (size : ℕ) → (x : A) → (f : List A → B) → (full : B) → q ≡ []
    → 0 < size
    → (if ltb (length q) size then f (q ++ x ∷ []) else full) ≡ f (x ∷ [])
enqueued-empty q size x f full h room =
    let fits : ltb 0 size ≡ true = ground (arith, room) in rw (h, fits) refl

-- The state once a new signal has its row and its place in an empty queue.
abbrev pub queued_state : Host → Client → Payload → ℕ → World → World
queued_state host client payload owner_id w = record (recorded host client payload owner_id w) {
  queue = (w.db.next_trade_id, w.request_id) ∷ [];
}

-- In asynchronous mode, with a queue that is empty and has room, a new signal that passes validation
-- and the next round of a worker together send exactly one request, a signed market order for the
-- symbol, the side and the quantity of the signal under the client order id made from its signal id,
-- and leave exactly one more row: the signal's, with its time of submission and with the order id,
-- the status and the quantities that the exchange answered. Before the order is sent, that row is
-- committed as submitted. The owner's id is cached, the account exists, the database answers, no row
-- has an id as high as the next one, and the placing of the order ends with a result.
pub accepted_signal_is_executed :
    (host : Host) (client : Client) (payload : Payload) (owner_id : ℕ) (w : World)
    (result : BinanceOrderResult)
    → host.settings.webhook_async_execution ≡ true
    → validate_signal host payload ≡ ok tt
    → w.owner ≡ some owner_id
    → ((n : ℕ) → host.commit_fails n ≡ false)
    → any (trade_conflicts (pending_trade host payload owner_id w.clock)) w.db.trades ≡ false
    → user_exists owner_id w.db ≡ true
    → All (λ t. t.id < w.db.next_trade_id) w.db.trades
    → w.queue ≡ []
    → 0 < host.settings.executor_queue_size
    → let row = new_row host client payload owner_id w in
      let queued = queued_state host client payload owner_id w in
      let at_order = sending w.db.trades row [] [] w.request_id queued in
      (place_order host client (sent_row w.clock row) at_order).0 ≡ ok result
      → let w' = (worker_round host client (process_signal host client payload w).1).1 in
        (claim_for_submission host row.id (record queued { queue = [] })
          ≡ (ok (some (sent_row w.clock row)), at_order))
        × (w'.queue ≡ [])
        × (w'.db.trades ≡ w.db.trades ++ executed_row result w.clock row ∷ [])
        × ((q : Text) × (format_decimal payload.quantity ≡ some q)
            × (w'.requests
                ≡ w.requests
                  ++ order_sent host client payload.symbol
                      (side_value payload.action)
                      q
                      (text "cat-" ++ take 28 (host.sha256_hex payload.signal_id))
                      w.clock
                    ∷ []))
accepted_signal_is_executed host client payload owner_id w result mode valid owner up free known
      fresh empty room answered =
    let row = new_row host client payload owner_id w in
    let queued : (process_signal host client payload w).1
        ≡ queued_state host client payload owner_id w =
      ap (λ x. x.1)
        (process_signal_queued host client payload owner_id w mode valid owner (up w.commits) free
          known)
      ∙ enqueued-empty w.queue host.settings.executor_queue_size (w.db.next_trade_id, w.request_id)
          (λ q. record (recorded host client payload owner_id w) { queue = q })
          (recorded host client payload owner_id w) empty room in
    rw queued (
      worker_executes host client row w.db.trades [] (queued_state host client payload owner_id w)
        w.request_id [] result up refl refl (no_such_id w.db.next_trade_id w.db.trades fresh) refl
        refl answered)
