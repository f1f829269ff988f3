-- ===== src/Lifespan/Startup.antt =====
-- A start of the process.
use crypto_auto_trader.Base.{◌≡◌, refl, ap, Bool, true, false, ◌&&◌, none, some, [], if◌then◌else◌}
use crypto_auto_trader.Host.{Host}
use crypto_auto_trader.World.{World}
use crypto_auto_trader.Executor.{unsent_ids, start}
use crypto_auto_trader.Executor.Recovery.{tagged, resume_pending_requeues}
use crypto_auto_trader.Lifespan.{fresh, get_trade_executor, started, startup}

module _ (host : Host) where
  started_lem :
      (async database_up : Bool) (w : World)
      → let p = started host async database_up (fresh w) in
        let ids = unsent_ids host (fresh w).world in
        (p.executor ≡ (
          if async
          then some (record { running = true; workers = host.settings.executor_workers })
          else none))
        × (p.world ≡ record w {
          owner = none;
          queue = if async && database_up then tagged w.request_id ids else [];
        })
  unfolding fresh get_trade_executor start
  started_lem true true w =
      (refl, ap (λ x. x.1) (resume_pending_requeues host (fresh w).world refl).0)
  started_lem true false w = (refl, refl)
  started_lem false database_up w = (refl, refl)

-- What a new process starts with: an executor that runs, and in its queue the ids of unsent trades;
-- no queued ids where the database does not answer; no executor where requests wait for the exchange.
pub startup_lem :
    (host : Host) (database_up : Bool) (w : World)
    → let p = startup host database_up (fresh w) in
      let ids = unsent_ids host (fresh w).world in
      (p.executor ≡ (
        if host.settings.webhook_async_execution
        then some (record { running = true; workers = host.settings.executor_workers })
        else none))
      × (p.world ≡ record w {
        owner = none;
        queue =
            if host.settings.webhook_async_execution && database_up
            then tagged w.request_id ids
            else [];
      })
unfolding startup
startup_lem host database_up w =
    started_lem host host.settings.webhook_async_execution database_up w
