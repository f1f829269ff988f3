-- ===== src/Executor/System.antt =====
-- Requests, workers, reconciliation runs and crashes as interleaved steps. A task gives way at each
-- await, so each step is what runs between two of them; a task that has claimed a trade and not
-- yet sent its order is held in `jobs`.
pub mod Counts
pub mod Effects
pub mod Safe
pub mod Remembered
pub mod Once
pub mod Refines
use crypto_auto_trader.Base.{ℕ, ◌≡◌, Option, none, some, List, [], ◌∷◌, ◌++◌}
use crypto_auto_trader.Text.{Text}
use crypto_auto_trader.Models.{User, Trade, TradeStatus}
use crypto_auto_trader.Errors.{BinanceError, Result, ok}
use crypto_auto_trader.Store.{Db, insert_user, update_trade}
use crypto_auto_trader.Payload.{Payload}
use crypto_auto_trader.Host.{Host}
use crypto_auto_trader.World.{World, commit, commit_insert}
use crypto_auto_trader.Binance.{BinanceOrderResult}
use crypto_auto_trader.BinanceClient.{Client, get_order}
use crypto_auto_trader.Outcomes.Keeps.{Outcome}
use crypto_auto_trader.Trading.{create_pending_trade, claim_for_submission, place_order}

pub record System : Type 0 where
  pub world : World
  pub jobs : List Trade

abbrev pub claimed_job : Result (Option Trade) → List Trade → List Trade
claimed_job (ok (some trade)) jobs = trade ∷ jobs
claimed_job _ jobs = jobs

module _ (host : Host) (client : Client) where
  pub data Step (s : System) : System → Type 0 where
    -- a webhook inserts the row of a signal, or is refused
    signal :
        (payload : Payload) (owner_id : ℕ)
        → Step s (record s { world = (create_pending_trade host payload owner_id s.world).1 })
    -- an account is registered, or is refused
    register :
        (u : User) → Step s (record s { world = (commit_insert host (insert_user u) s.world).1 })
    -- a worker or an inline request claims a trade, whatever the queue holds
    claim :
        (k : ℕ)
        → Step s (record {
          world = (claim_for_submission host k s.world).1;
          jobs = claimed_job (claim_for_submission host k s.world).0 s.jobs;
        })
    -- a task sends the order of the trade that it has claimed
    send_order :
        (before after : List Trade) (t : Trade)
        → s.jobs ≡ before ++ t ∷ after
        → Step s (record { world = (place_order host client t s.world).1; jobs = before ++ after })
    -- a task writes what it learned, or its commit fails
    write :
        (k : ℕ) (f : Trade → Trade)
        → Outcome host f
        → Step s (record s { world = (commit host (update_trade k f) s.world).1 })
    -- a reconciliation asks the exchange
    query :
        (symbol client_order_id : Text)
        → Step s (record s { world = (get_order host client symbol client_order_id s.world).1 })
    -- a task is cancelled, or ends with an exception
    cancel :
        (before after : List Trade) (t : Trade)
        → s.jobs ≡ before ++ t ∷ after
        → Step s (record s { jobs = before ++ after })
    -- time passes, the queue is filled and drained, the owner is looked up, another request is served
    other :
        (queue : List (ℕ × Text)) (clock : ℕ) (owner : Option ℕ) (request_id : Text)
        → Step s (record s {
          world = record s.world {
            queue = queue;
            clock = clock;
            owner = owner;
            request_id = request_id;
          };
        })
    -- the process is killed and starts again: queue, tasks and the cached owner are gone
    crash : Step s (record { world = record s.world { queue = []; owner = none }; jobs = [] })

  pub data Reach (s : System) : System → Type 0 where
    here : Reach s s
    next : {t u : System} → Reach s t → Step t u → Reach s u
