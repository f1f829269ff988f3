-- ===== src/Lifespan.antt =====
-- app/main.py: what the lifespan of the application does at its start and its end, with the
-- process-wide executor of app/services/execution_queue.py and the shared client of
-- app/dependencies/services.py. Logging and the routing of FastAPI are left out.
pub mod Startup
pub mod Shutdown
use crypto_auto_trader.Base.{
  ℕ, zero, suc, Bool, true, false, ◌&&◌, Option, none, some, [], if◌then◌else◌,
}
use crypto_auto_trader.Errors.{Result, ok, err}
use crypto_auto_trader.Host.{Host}
use crypto_auto_trader.World.{World}
use crypto_auto_trader.BinanceClient.{Client, make_client}
use crypto_auto_trader.Executor.{Executor, start, stop, resume_pending, worker_round}

-- The module variables `_executor` and `_binance_client`, beside the state that calls run on.
pub record Process : Type 0 where
  pub world : World
  pub executor : Option Executor
  pub binance_client : Option Client

-- A new process: no module variable is set, and no queue exists.
unfoldable pub fresh : World → Process
fresh w = record {
  world = record w { queue = []; owner = none };
  executor = none;
  binance_client = none;
}

-- `TradeExecutor()`
abbrev pub new_executor : Executor
new_executor = record { running = false; workers = 0 }

-- `get_trade_executor`
unfoldable pub get_trade_executor : Process → Executor × Process
get_trade_executor p = elim p.executor [
  | some e ↦ (e, p)
  | none ↦ (new_executor, record p { executor = some new_executor })
]

module _ (host : Host) where
  abbrev kept : Process → Result Client → Result (Client × Process)
  kept p (ok client) = ok (client, record p { binance_client = some client })
  kept p (err e) = err e

  -- `get_binance_client`
  unfoldable pub get_binance_client : Process → Result (Client × Process)
  get_binance_client p = elim p.binance_client [
    | some client ↦ ok (client, p)
    | none ↦ kept p (make_client host none none none none none)
  ]

  -- `close_binance_client`
  unfoldable pub close_binance_client : Process → Process
  close_binance_client p = record p { binance_client = none }

  abbrev resumed : Bool → World → World
  resumed true w = (resume_pending host w).1
  resumed false w = w

  abbrev pub started : Bool → Bool → Process → Process
  started true database_up p =
      let (e, q) = get_trade_executor p in
      record q {
        executor = some (start host.settings.executor_workers e);
        world = resumed database_up q.world;
      }
  started false database_up p = p

  -- The part of `lifespan` before its `yield`; `database_up` is what `check_database_connection`
  -- answers.
  unfoldable pub startup : Bool → Process → Process
  unfolding get_trade_executor
  startup database_up p = started host.settings.webhook_async_execution database_up p

  -- `rounds` items are finished before the drain times out.
  unfoldable pub drain : Client → ℕ → World → World
  drain client zero w = w
  drain client (suc rounds) w = drain client rounds (worker_round host client w).1

  -- `stop` waits for the queue only if the executor runs.
  abbrev pub stopped : Client → ℕ → Option Executor → Process → Process
  stopped client rounds none p = p
  stopped client rounds (some e) p = record p {
    executor = some (stop e);
    world = if e.running then drain client rounds p.world else p.world;
  }

  -- The part of `lifespan` after its `yield`.
  unfoldable pub shutdown : Client → ℕ → Process → Process
  unfolding drain close_binance_client
  shutdown client rounds p =
      close_binance_client
        (if host.settings.webhook_async_execution then stopped client rounds p.executor p else p)
