-- ===== src/Program.antt =====
-- The program as a list of calls, served one after another: the routes, the rounds of the workers,
-- the script of the reconciliation, and restarts. `Executor.System` has their interleavings.
pub mod Refinement
pub mod Idempotency
pub mod Rows
pub mod Settled
pub mod Kept
pub mod Final
pub mod Delivered
use crypto_auto_trader.Base.{ℕ, ◌+◌, Bool, Option, List, [], ◌∷◌, some, none}
use crypto_auto_trader.Text.{Text}
use crypto_auto_trader.Models.{User}
use crypto_auto_trader.Errors.{Result, ok, err}
use crypto_auto_trader.Host.{Host}
use crypto_auto_trader.World.{World}
use crypto_auto_trader.Payload.{RawPayload}
use crypto_auto_trader.BinanceClient.{Client}
use crypto_auto_trader.Reconciliation.{Summary, reconcile_pending_trades}
use crypto_auto_trader.Webhook.{tradingview_webhook}
use crypto_auto_trader.Queries.{reconcile}
use crypto_auto_trader.Security.{Crypto}
use crypto_auto_trader.Auth.{register_user}
use crypto_auto_trader.Executor.{worker_round}
use crypto_auto_trader.Lifespan.{fresh, startup}

pub data Call : Type 0 where
  -- POST /webhook/tradingview, with the payload and the secret of the header
  webhook : RawPayload → Option Text → Call
  -- a worker takes the first item of the queue
  work : Call
  -- POST /trades/{trade_id}/reconcile
  reconcile_one : User → ℕ → Call
  -- scripts/reconcile.py, with its two options
  reconcile_run : ℕ → ℕ → Call
  -- POST /auth/register
  register : Text → Text → Call
  -- milliseconds pass
  tick : ℕ → Call
  -- the middleware names the next request
  incoming : Text → Call
  -- the process is killed and starts again, with the database up or down
  restart : Bool → Call

abbrev exit_code : Result Summary → ℕ
exit_code (ok summary) = 0
exit_code (err e) = 1

-- `run` of scripts/reconcile.py, with the client that it has opened: its exit code.
unfoldable pub run : Host → Client → ℕ → ℕ → World → ℕ × World
run host client older_than limit w =
    let (r, w') = reconcile_pending_trades host client older_than limit w in (exit_code r, w')

abbrev or_default : ℕ → Option ℕ → ℕ
or_default default none = default
or_default default (some given) = given

-- `main` of scripts/reconcile.py, for the two options that were given; no option is negative.
pub reconcile_script : Host → Client → Option ℕ → Option ℕ → World → ℕ × World
reconcile_script host client older_than limit =
    run host client (or_default 60 older_than) (or_default 100 limit)

module _ (host : Host) (crypto : Crypto) (client : Client) where
  unfoldable pub serve : Call → World → World
  unfolding run
  serve (Call.webhook raw secret) w = (tradingview_webhook host client raw secret w).1
  serve Call.work w = (worker_round host client w).1
  serve (Call.reconcile_one user trade_id) w = (reconcile host client user trade_id w).1
  serve (Call.reconcile_run older_than limit) w = (run host client older_than limit w).1
  serve (Call.register email password) w = (register_user host crypto email password w).1
  serve (Call.tick ms) w = record w { clock = w.clock + ms }
  serve (Call.incoming request_id) w = record w { request_id = request_id }
  serve (Call.restart database_up) w = (startup host database_up (fresh w)).world

  unfoldable pub serve_all : List Call → World → World
  unfolding serve
  serve_all [] w = w
  serve_all (call ∷ calls) w = serve_all calls (serve call w)
