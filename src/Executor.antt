-- ===== src/Executor.antt =====
-- app/services/execution_queue.py: the bounded queue of trade ids, the workers that drain it, and
-- the recovery of trades that were never sent. `TradeExecutor.submit` is `Trading.submit`, since
-- `process_signal` calls it. Logging and the closing of the HTTP client are left out.
pub mod Recovery
pub mod System
pub mod Serves
pub mod Drain
pub mod Executes
use crypto_auto_trader.Base.{
  ℕ, ◌+◌, Bool, true, false, ◌&&◌, Option, none, some, List, [], ◌∷◌, ltb, if◌then◌else◌, is_none,
  length, map, select, take,
}
use crypto_auto_trader.Text.{Text}
use crypto_auto_trader.Models.{Trade, TradeStatus, status_eq}
use crypto_auto_trader.Errors.{Result, ok, err}
use crypto_auto_trader.Store.{order_by}
use crypto_auto_trader.Host.{Host}
use crypto_auto_trader.World.{World, Exec, pure, gets, attempt, ◌>>=◌, ◌>>◌}
use crypto_auto_trader.BinanceClient.{Client}
use crypto_auto_trader.Trading.{claim_for_submission, submit_to_binance, submit}

-- Committed, and never sent: the condition of `resume_pending`.
abbrev pub is_unsent : Trade → Bool
is_unsent t = status_eq t.status TradeStatus.pending && is_none t.submitted_at

-- `TradeExecutor` beside its queue: `start` and `stop` change these.
pub record Executor : Type 0 where
  pub running : Bool
  pub workers : ℕ

-- `start`
unfoldable pub start : ℕ → Executor → Executor
start worker_count e = if e.running then e else record e { running = true; workers = worker_count }

-- `stop`: the workers are cancelled, drained or not.
unfoldable pub stop : Executor → Executor
stop e = if e.running then record e { running = false; workers = 0 } else e

module _ (host : Host) where
  -- The SELECT of `resume_pending`.
  unfoldable pub unsent_ids : World → List ℕ
  unsent_ids w =
      map (λ (t : Trade). t.id)
        (take host.settings.executor_queue_size
          (order_by (λ (a b : Trade). ltb a.id b.id) (select is_unsent w.db.trades)))

  -- `for trade_id in trade_ids: self.submit(trade_id)`
  unfoldable pub submit_all : List ℕ → Exec (Unit {0})
  submit_all [] = pure tt
  submit_all (k ∷ ks) = do submit host k; submit_all ks

  -- `resume_pending`
  unfoldable pub resume_pending : Exec ℕ
  unfolding submit_all
  resume_pending = do ids ← gets unsent_ids; submit_all ids; pure (length ids)

  abbrev pub submit_won : Client → Option Trade → Exec (Unit {0})
  submit_won client none = pure tt
  submit_won client (some trade) = do submit_to_binance host client trade; pure tt

  -- `_execute`
  unfoldable pub execute : Client → ℕ → Exec (Unit {0})
  execute client k = do trade ← claim_for_submission host k; submit_won client trade

  abbrev pub run_item : Client → List (ℕ × Text) → Exec (Unit {0})
  run_item client [] w = (ok tt, w)
  run_item client ((k, request_id) ∷ rest) w =
      let (_, w') = execute client k (record w { queue = rest; request_id = request_id }) in
      (ok tt, w')

  -- One round of `_worker`; on an empty queue it waits. An exception ends the item, not the worker.
  unfoldable pub worker_round : Client → Exec (Unit {0})
  worker_round client w = run_item client w.queue w
