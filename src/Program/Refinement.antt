-- ===== src/Program/Refinement.antt =====
-- The operations of the program as sequences of the steps of Executor.System.
use crypto_auto_trader.Base.{
  ℕ, ◌+◌, Bool, true, false, if◌then◌else◌, Option, none, some, List, [], ◌∷◌,
}
use crypto_auto_trader.Text.{Text}
use crypto_auto_trader.Models.{Trade, User}
use crypto_auto_trader.Errors.{Exc, Result, ok, err}
use crypto_auto_trader.Host.{Host}
use crypto_auto_trader.World.{World, pure, ◌>>=◌, ◌>>◌}
use crypto_auto_trader.Payload.{RawPayload, Payload}
use crypto_auto_trader.BinanceClient.{Client}
use crypto_auto_trader.Trading.{
  owner_found, owner_cached, resolve_trade_owner_id, submit_claimed, process_signal,
  claim_for_submission, submit,
}
use crypto_auto_trader.Webhook.{tradingview_webhook}
use crypto_auto_trader.Queries.{trade_or_404, reconcile}
use crypto_auto_trader.Security.{Crypto}
use crypto_auto_trader.Auth.{registered, register_unless, register_user, get_user_by_email}
use crypto_auto_trader.Executor.{
  submit_all, resume_pending, submit_won, execute, run_item, worker_round,
}
use crypto_auto_trader.Lifespan.{fresh, get_trade_executor, started, startup}
use crypto_auto_trader.Program.{Call, serve, serve_all}
use crypto_auto_trader.Executor.Serves.{
  Refines-reconcile_trade, Refines-reconcile_pending_trades, Spends-submit_to_binance,
}
use crypto_auto_trader.Executor.System.{Step, Reach}
use crypto_auto_trader.Executor.System.Refines.{
  at_state, Reach-trans, Reach-one, Refines, refines_rules, Refines-claimed, Refines-signal,
  Refines-register, Refines-owner, Refines-submit, Refines-bind, Refines-pure, Spends-then,
}

module _ (host : Host) (client : Client) where
  Refines-owner_found : (u : Option User) → Refines host client (owner_found host u)
  Refines-owner_found none = search refines_rules
  Refines-owner_found (some u) = search (refines_rules, Refines-owner)

  Refines-owner_cached : (o : Option ℕ) → Refines host client (owner_cached host o)
  Refines-owner_cached none = search (refines_rules, Refines-owner_found)
  Refines-owner_cached (some k) = search refines_rules

  Refines-resolve_trade_owner_id : Refines host client (resolve_trade_owner_id host)
  unfolding resolve_trade_owner_id
  Refines-resolve_trade_owner_id = search (refines_rules, Refines-owner_cached)

  Refines-claim_and_submit :
      (k : ℕ) (trade : Trade)
      → Refines host client
          (claim_for_submission host k >>= λ claimed. submit_claimed host client trade claimed)
  Refines-claim_and_submit k trade =
      Refines-claimed host client k (submit_claimed host client trade) (search refines_rules)
        (λ t. Spends-submit_to_binance host client t)

  -- The end of `process_signal`, whichever way the order goes out.
  pub Refines-submitted :
      (trade : Trade) (async : Bool)
      → Refines host client (
          if async then (do submit host trade.id; pure trade) else (do
            claimed ← claim_for_submission host trade.id
            submit_claimed host client trade claimed))
  Refines-submitted trade async = search (refines_rules, Refines-submit, Refines-claim_and_submit)

  pub Refines-process_signal :
      (payload : Payload) → Refines host client (process_signal host client payload)
  unfolding process_signal
  Refines-process_signal payload =
      search (refines_rules, Refines-resolve_trade_owner_id, Refines-signal, Refines-submitted)
        depth 7

  Refines-tradingview_webhook :
      (raw : RawPayload) (secret : Option Text)
      → Refines host client (tradingview_webhook host client raw secret)
  unfolding tradingview_webhook
  Refines-tradingview_webhook raw secret = search (refines_rules, Refines-process_signal)

  Refines-submit_all : (ks : List ℕ) → Refines host client (submit_all host ks)
  unfolding submit_all
  Refines-submit_all [] = search refines_rules
  Refines-submit_all (k ∷ ks) =
      Refines-bind host client (submit host k) (λ _. submit_all host ks)
        (Refines-submit host client k) (λ _. Refines-submit_all ks)

  Refines-resume_pending : Refines host client (resume_pending host)
  unfolding resume_pending
  Refines-resume_pending = search (refines_rules, Refines-submit_all)

  -- The trade that a worker has claimed is sent and its outcome recorded.
  Refines-execute : (k : ℕ) → Refines host client (execute host client k)
  unfolding execute
  Refines-execute k =
      Refines-claimed host client k (submit_won host client) (search refines_rules)
        (λ t. search (Spends-then, Spends-submit_to_binance, Refines-pure))

  run_item-Reach :
      (items : List (ℕ × Text)) (w : World) (jobs : List Trade)
      → Reach host client (at_state w jobs) (at_state (run_item host client items w).1 jobs)
  run_item-Reach [] w jobs = Reach.here
  run_item-Reach ((k, request_id) ∷ rest) w jobs =
      Reach-trans host client (Reach-one host client (Step.other rest w.clock w.owner request_id))
        ((Refines-execute k).steps (record w { queue = rest; request_id = request_id }) jobs)

  Refines-worker_round : Refines host client (worker_round host client)
  unfolding worker_round
  Refines-worker_round = record { steps = λ w jobs. run_item-Reach w.queue w jobs }

  Refines-trade_or_404 :
      (trade_id : ℕ) (o : Option Trade) → Refines host client (trade_or_404 trade_id o)
  Refines-trade_or_404 trade_id none = search refines_rules
  Refines-trade_or_404 trade_id (some t) = search refines_rules

  Refines-reconcile :
      (user : User) (trade_id : ℕ) → Refines host client (reconcile host client user trade_id)
  unfolding reconcile
  Refines-reconcile user trade_id =
      search (refines_rules, Refines-trade_or_404, Refines-reconcile_trade)

  Refines-registered :
      (crypto : Crypto) (r : Result User) → Refines host client (registered host crypto r)
  Refines-registered crypto (ok user) = search refines_rules
  Refines-registered crypto (err Exc.integrity_error) = search refines_rules
  Refines-registered crypto (err e) = search refines_rules

  Refines-register_unless :
      (crypto : Crypto) (email password : Text) (o : Option User)
      → Refines host client (register_unless host crypto email password o)
  Refines-register_unless crypto email password (some u) = search refines_rules
  Refines-register_unless crypto email password none =
      search (refines_rules, Refines-register, Refines-registered)

  Refines-register_user :
      (crypto : Crypto) (email password : Text)
      → Refines host client (register_user host crypto email password)
  unfolding register_user get_user_by_email
  Refines-register_user crypto email password = search (refines_rules, Refines-register_unless)

  started-Reach :
      (async database_up : Bool) (w : World)
      → Reach host client
          (at_state (fresh w).world [])
          (at_state (started host async database_up (fresh w)).world [])
  unfolding fresh get_trade_executor
  started-Reach true true w =
      Refines-resume_pending.steps (record w { queue = []; owner = none }) []
  started-Reach true false w = Reach.here
  started-Reach false database_up w = Reach.here

  pub serve-Reach :
      (crypto : Crypto) (call : Call) (w : World)
      → Reach host client (at_state w []) (at_state (serve host crypto client call w) [])
  unfolding serve fresh startup
  serve-Reach crypto (Call.webhook raw secret) w =
      (Refines-tradingview_webhook raw secret).steps w []
  serve-Reach crypto Call.work w = Refines-worker_round.steps w []
  serve-Reach crypto (Call.reconcile_one user trade_id) w =
      (Refines-reconcile user trade_id).steps w []
  serve-Reach crypto (Call.reconcile_run older_than limit) w =
      (Refines-reconcile_pending_trades host client older_than limit).steps w []
  serve-Reach crypto (Call.register email password) w =
      (Refines-register_user crypto email password).steps w []
  serve-Reach crypto (Call.tick ms) w =
      Reach-one host client (Step.other w.queue (w.clock + ms) w.owner w.request_id)
  serve-Reach crypto (Call.incoming request_id) w =
      Reach-one host client (Step.other w.queue w.clock w.owner request_id)
  serve-Reach crypto (Call.restart database_up) w =
      Reach-trans host client (Reach-one host client Step.crash)
        (started-Reach host.settings.webhook_async_execution database_up w)

-- Every list of calls is a sequence of the steps that `Executor.System` interleaves: each operation
-- of the program, run to its end in any state and with any outcome, errors included, does nothing
-- else, and leaves no claimed trade behind in a task.
pub serve_all-Reach :
    (host : Host) (crypto : Crypto) (client : Client) (calls : List Call) (w : World)
    → Reach host client (at_state w []) (at_state (serve_all host crypto client calls w) [])
unfolding serve_all
serve_all-Reach host crypto client [] w = Reach.here
serve_all-Reach host crypto client (call ∷ calls) w =
    Reach-trans host client (serve-Reach host client crypto call w)
      (serve_all-Reach host crypto client calls (serve host crypto client call w))
