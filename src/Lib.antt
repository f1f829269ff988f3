-- ===== src/Lib.antt =====
-- crypto_auto_trader: a service that takes TradingView webhooks and places market orders on the
-- Binance testnet. A signal is validated, stored as a trade, claimed, sent, and its outcome written
-- back; what stays unclear is settled later by asking the exchange. This library models the service
-- and states what makes it safe.
--
-- The parts, their files here and their sources in the repository:
--   Text, Numbers, Json    texts as code points, decimals (app/core/numbers.py), JSON values
--   Errors, Errors/Envelope  the error classes and the responses (app/core/exceptions.py)
--   Models, Store          rows and status sets (app/db/models.py); the tables, their constraints
--                          and the statements that the program runs
--   Host, World            settings, transport and library functions; the state of the process, the
--                          calls that run on it (`Exec`), commits and HTTP requests
--   Config                 the validators of app/core/config.py
--   Binance, BinanceClient the exchange client, its errors and calls
--                          (app/services/binance_service.py)
--   Payload                app/schemas/webhook.py
--   Outcomes, Trading, Queries  app/services/trading_service.py: `process_signal`,
--                          `claim_for_submission`, `submit_to_binance` and the queries,
--                          with the routes of app/api/routes/trades.py
--   Reconciliation         app/services/reconciliation_service.py
--   Executor               app/services/execution_queue.py; Executor/System has the steps that
--                          requests, workers, reconciliation runs and crashes interleave
--   Security, Auth         app/core/security.py, app/services/auth_service.py,
--                          app/dependencies/auth.py, app/schemas/user.py
--   Webhook                app/api/routes/webhook.py, app/schemas/trade.py
--   Routes                 app/api/routes/auth.py, and the list of app/api/routes/trades.py
--   Setup, Scripts         scripts/check_setup.py; what scripts/simulate_trades.py and
--                          scripts/benchmark_webhook.py count, and the servers that the latter starts
--   Middleware             app/core/middleware.py
--   Logging                app/core/logging_config.py
--   Health, Database       app/api/routes/health.py with app/schemas/health.py; the options of the
--                          engine and the readiness probe of app/db/database.py
--   Api                    app/api/router.py and the handlers of `create_app` in app/main.py: a
--                          request to each route, and the response that its result or its error
--                          becomes
--   Lifespan               `lifespan` of app/main.py, with app/dependencies/services.py
--   Program                all calls of the service, one after another; scripts/reconcile.py
--   Schema                 the tables as app/db/models.py declares them, and Schema/Migration as
--                          alembic/versions/20260908_0001_initial_schema.py creates them
--   Tests                  the theorems at concrete inputs
--
-- How they interact: a handler is an `Exec`, a function from the state to a result and the next
-- state. `Webhook.tradingview_webhook` calls `Trading.process_signal`, which inserts a row and then
-- either submits its id to the queue of the executor or claims it and calls the client;
-- `Executor.execute` does the latter for a queued id. `Trading.record_outcome` writes what came back
-- and calls `Reconciliation.reconcile_trade` when nobody knows. The exchange is an arbitrary function
-- of the requests before (`Host.reply`), and any commit may fail (`Host.commit_fails`).
--
-- Fuel: `Numbers.digits` takes one round more than the number, and the removal of trailing zeros as
-- many rounds as the coefficient; each round divides by ten, so both are enough. The loop of
-- `wait_for_health` sleeps 400 ms in each round, so it gets a round for each 400 ms of its time and one
-- more. Every other loop is structural.
--
-- Parameters, since they are not in this repository: the HTTP transport, `Decimal(str)`, `int(str)`,
-- `str` of numbers and decimals, SHA-256 and HMAC, bcrypt and JWT, `urlparse` and httpx2's URL, the
-- Unicode tables of `lower` and `upper`, the database that runs the migration, and the application
-- below the middleware. Python integers and decimals are unbounded or exact here; decimals are
-- rounded to 28 digits where the source normalises them.
--
-- Not modelled: the texts of the lines of the log, the framework's matching of paths and parsing of
-- bodies, the construction of the engine and of its sessions, the timing and the printing of scripts,
-- and failures of the database while it reads, other than in the readiness probe. Of the declared
-- tables, server defaults are known by their presence, and names of constraints are left out. The
-- clock stands still within one call. A session's object is the row as last committed: SQLAlchemy's
-- tracking of changed columns and its expiry after a failed commit are left out. An INSERT that is
-- refused leaves the next id as it was, where PostgreSQL's sequence moves on.
pub mod Base
pub mod Text
pub mod Numbers
pub mod Json
pub mod Errors
pub mod Models
pub mod Store
pub mod Host
pub mod World
pub mod Config
pub mod Binance
pub mod BinanceClient
pub mod Payload
pub mod Outcomes
pub mod Reconciliation
pub mod Trading
pub mod Executor
pub mod Queries
pub mod Security
pub mod Auth
pub mod Webhook
pub mod Schema
pub mod Routes
pub mod Middleware
pub mod Lifespan
pub mod Logging
pub mod Setup
pub mod Scripts
pub mod Program
pub mod Tests
pub mod Database
pub mod Api
pub mod Health
