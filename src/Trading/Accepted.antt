-- ===== src/Trading/Accepted.antt =====
-- A signal that is new, in asynchronous mode: its row, and its place in the queue.
use crypto_auto_trader.Base.{
  ℕ, ◌+◌, ◌≡◌, ◌∙◌, Bool, true, false, some, [], ◌∷◌, ◌++◌, if◌then◌else◌, any, ltb, length,
  Bool-cases, inl, inr,
}
use crypto_auto_trader.Models.{Trade}
use crypto_auto_trader.Errors.{ok}
use crypto_auto_trader.Host.{Host}
use crypto_auto_trader.Store.{trade_conflicts, user_exists, insert_trade}
use crypto_auto_trader.World.{World, Exec, pure, ◌>>=◌}
use crypto_auto_trader.World.Runs.{
  bind_ok, bind-gets, bind-attempt, bind-lift_ok, run-pure, commit_insert-some,
}
use crypto_auto_trader.Payload.{Payload}
use crypto_auto_trader.BinanceClient.{Client}
use crypto_auto_trader.Trading.{
  build_client_order_id, validate_signal, pending_trade, create_pending_trade, submit,
  process_signal,
}
use crypto_auto_trader.Trading.Signal.{new_row, resolved}

if_true :
    {A : Type 0} (m n : Exec A) {b : Bool} → b ≡ true → (w : World) → (if b then m else n) w ≡ m w
if_true m n e w = rw e

run-submit_room :
    (host : Host) (t : Trade) (w : World)
    → ltb (length w.queue) host.settings.executor_queue_size ≡ true
    → submit host t.id w ≡ (ok true, record w { queue = w.queue ++ (t.id, w.request_id) ∷ [] })
unfolding submit
run-submit_room host t w e = rw e

run-submit_full :
    (host : Host) (t : Trade) (w : World)
    → ltb (length w.queue) host.settings.executor_queue_size ≡ false
    → submit host t.id w ≡ (ok false, w)
unfolding submit
run-submit_full host t w e = rw e

submit_then :
    (host : Host) (t : Trade) (w : World)
    → (submit host t.id >>= λ _. pure t) w ≡ (
      ok t,
      (if ltb (length w.queue) host.settings.executor_queue_size
          then record w { queue = w.queue ++ (t.id, w.request_id) ∷ [] }
          else w),
    )
submit_then host t w = elim (Bool-cases (ltb (length w.queue) host.settings.executor_queue_size)) [
  | inl e ↦ rw (bind_ok, run-submit_room host t w e, run-pure, e)
  | inr e ↦ rw (bind_ok, run-submit_full host t w e, run-pure, e)
]

module _ (host : Host) (client : Client) (payload : Payload) (owner_id : ℕ) (w : World) where
  inserted_trade :
      any (trade_conflicts (pending_trade host payload owner_id w.clock)) w.db.trades ≡ false
      → user_exists owner_id w.db ≡ true
      → insert_trade (pending_trade host payload owner_id w.clock) w.db
        ≡ some (
          new_row host client payload owner_id w,
          record w.db {
            trades = w.db.trades ++ (new_row host client payload owner_id w) ∷ [];
            next_trade_id = w.db.next_trade_id + 1;
          },
        )
  unfolding insert_trade pending_trade build_client_order_id
  inserted_trade free known = rw (free, known)

  -- The state once the row is written.
  abbrev pub recorded : World
  recorded = record w {
    db = record w.db {
      trades = w.db.trades ++ (new_row host client payload owner_id w) ∷ [];
      next_trade_id = w.db.next_trade_id + 1;
    };
    commits = w.commits + 1;
  }

  create_pending_trade_accepted :
      host.commit_fails w.commits ≡ false
      → any (trade_conflicts (pending_trade host payload owner_id w.clock)) w.db.trades ≡ false
      → user_exists owner_id w.db ≡ true
      → create_pending_trade host payload owner_id w
        ≡ (ok (new_row host client payload owner_id w), recorded)
  unfolding create_pending_trade
  create_pending_trade_accepted up free known = rw (
    bind-gets,
    bind-attempt,
    commit_insert-some host (insert_trade (pending_trade host payload owner_id w.clock)) w
        (new_row host client payload owner_id w) recorded.db up (inserted_trade free known),
    run-pure,
  )

-- In asynchronous mode a signal that passes validation and is new gets a row that is PENDING and
-- unsent under the next id, in one commit; the answer is that row. Its id is queued if there is room,
-- and otherwise left to the recovery. Nothing is sent. The owner's id is cached, the account exists,
-- and the database answers.
pub process_signal_queued :
    (host : Host) (client : Client) (payload : Payload) (owner_id : ℕ) (w : World)
    → host.settings.webhook_async_execution ≡ true
    → validate_signal host payload ≡ ok tt
    → w.owner ≡ some owner_id
    → host.commit_fails w.commits ≡ false
    → any (trade_conflicts (pending_trade host payload owner_id w.clock)) w.db.trades ≡ false
    → user_exists owner_id w.db ≡ true
    → let row = new_row host client payload owner_id w in
      let now = recorded host client payload owner_id w in
      process_signal host client payload w ≡ (
        ok row,
        (if ltb (length w.queue) host.settings.executor_queue_size
            then record now { queue = w.queue ++ (w.db.next_trade_id, w.request_id) ∷ [] }
            else now),
      )
unfolding process_signal
process_signal_queued host client payload owner_id w mode valid owner up free known =
    let row = new_row host client payload owner_id w in
    let now = recorded host client payload owner_id w in
    rw
      (
        valid,
        bind-lift_ok,
        bind_ok,
        resolved host client payload owner_id w owner,
        bind_ok,
        create_pending_trade_accepted host client payload owner_id w up free known,
      )
      (if_true _ _ mode now ∙ submit_then host row now)
