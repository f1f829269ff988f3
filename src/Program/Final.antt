-- ===== src/Program/Final.antt =====
-- A settled trade is final: its row stays as it is, whatever is served.
use crypto_auto_trader.Base.{
  ℕ, ◌-◌, ◌*◌, ◌≡◌, inl, inr, refl, ◌∙◌, ap, Bool, true, Option, none, some, List, [], ◌∷◌,
}
use crypto_auto_trader.Text.{Text}
use crypto_auto_trader.Models.{User, Trade, is_terminal}
use crypto_auto_trader.Errors.{Exc, Result, ok, err}
use crypto_auto_trader.Host.{Host}
use crypto_auto_trader.Store.{find, insert_user}
use crypto_auto_trader.Store.Laws.{insert_user_inv}
use crypto_auto_trader.Store.Order.{All-take, All-order_by}
use crypto_auto_trader.World.{World, modify, lift, commit_insert, ◌>>=◌}
use crypto_auto_trader.World.Runs.{after-bind, bind-gets}
use crypto_auto_trader.World.Leaves.{Leaves, leaves_rules}
use crypto_auto_trader.World.Queue.{LeavesDb, db_rules}
use crypto_auto_trader.Payload.{RawPayload, Payload}
use crypto_auto_trader.BinanceClient.{Client}
use crypto_auto_trader.Reconciliation.{
  find_reconcilable_trades, is_reconcilable, reconcile_trade, reconcile_pending_trades,
}
use crypto_auto_trader.Reconciliation.Answers.{reconcile_settled}
use crypto_auto_trader.Trading.{owner_found, owner_cached, resolve_trade_owner_id, process_signal}
use crypto_auto_trader.Webhook.{tradingview_webhook}
use crypto_auto_trader.Queries.{get_trade_for_user, trade_or_404, reconcile}
use crypto_auto_trader.Security.{Crypto}
use crypto_auto_trader.Auth.{registered, register_unless, register_user, get_user_by_email}
use crypto_auto_trader.Executor.{run_item, worker_round}
use crypto_auto_trader.Executor.System.Safe.{IsSafe}
use crypto_auto_trader.Executor.System.Once.{IsStart, IsSafe-of_start, Reach-IsSafe}
use crypto_auto_trader.Executor.System.Refines.{at_state}
use crypto_auto_trader.Program.Refinement.{serve-Reach, serve_all-Reach}
use crypto_auto_trader.Program.{Call, run, serve, serve_all}
use crypto_auto_trader.Lifespan.Startup.{startup_lem}
use crypto_auto_trader.Executor.System.Effects.{commit_insert_cases}
use crypto_auto_trader.Program.Rows.{row_of, Leaves-reconcile_trade, Leaves-reconcile_all}
use crypto_auto_trader.Program.Settled.{All-select, self_or_other, not_reconcilable}
use crypto_auto_trader.Program.Kept.{HasRow, HasRow-create, row-execute, row-submitted}

module _ (host : Host) where
  LeavesDb-owner : (k : Option ℕ) → LeavesDb (modify (λ w. record w { owner = k }))
  unfolding modify
  LeavesDb-owner k = record { same = λ w. refl }

  LeavesDb-owner_found : (u : Option User) → LeavesDb (owner_found host u)
  LeavesDb-owner_found none = search db_rules
  LeavesDb-owner_found (some u) = search (db_rules, LeavesDb-owner)

  LeavesDb-owner_cached : (o : Option ℕ) → LeavesDb (owner_cached host o)
  LeavesDb-owner_cached none = search (db_rules, LeavesDb-owner_found)
  LeavesDb-owner_cached (some k) = search db_rules

  LeavesDb-resolve_trade_owner_id : LeavesDb (resolve_trade_owner_id host)
  unfolding resolve_trade_owner_id
  LeavesDb-resolve_trade_owner_id = search (db_rules, LeavesDb-owner_cached)

module _ (host : Host) (crypto : Crypto) (j : ℕ) where
  Leaves-insert_user : (u : User) → Leaves (row_of j) (commit_insert host (insert_user u))
  Leaves-insert_user u = record {
    same = λ w. elim (commit_insert_cases host (insert_user u) w) [
      | inl same ↦ rw same
      | inr (row, db, e, now_db) ↦
          let (_, _, trades, _, _) = insert_user_inv u row w.db db e in rw (now_db, trades)
    ];
  }

  Leaves-registered : (r : Result User) → Leaves (row_of j) (registered host crypto r)
  Leaves-registered (ok user) = search leaves_rules
  Leaves-registered (err Exc.integrity_error) = search leaves_rules
  Leaves-registered (err e) = search leaves_rules

  Leaves-register_unless :
      (email password : Text) (o : Option User)
      → Leaves (row_of j) (register_unless host crypto email password o)
  Leaves-register_unless email password (some u) = search leaves_rules
  Leaves-register_unless email password none =
      search (leaves_rules, Leaves-insert_user, Leaves-registered)

  Leaves-register_user :
      (email password : Text) → Leaves (row_of j) (register_user host crypto email password)
  unfolding register_user get_user_by_email
  Leaves-register_user email password = search (leaves_rules, Leaves-register_unless)

module _ (host : Host) (client : Client) (j : ℕ) (row : Trade)
    (settled : is_terminal row ≡ true) where
  abbrev Kept : World → Type 0
  Kept w = row_of j w ≡ some row

  module _ (w : World) (h : HasRow j row w) where
    HasRow-owner : HasRow j row (resolve_trade_owner_id host w).1
    HasRow-owner =
        let same = (LeavesDb-resolve_trade_owner_id host).same w in
        record { keyed = rw same h.keyed; found = rw same h.found }

    row-process_signal : (payload : Payload) → Kept (process_signal host client payload w).1
    unfolding process_signal lift
    row-process_signal payload = after-bind Kept _ _ w h.found (λ _ _.
        after-bind Kept _ _ w HasRow-owner.found (λ owner_id _.
          let v = (resolve_trade_owner_id host w).1 in
          let made = HasRow-create host client j row settled payload owner_id v HasRow-owner in
          after-bind Kept _ _ v made.found (λ t _.
            row-submitted host client j row settled _ made t
              host.settings.webhook_async_execution)))

    row-webhook :
        (raw : RawPayload) (secret : Option Text)
        → Kept (tradingview_webhook host client raw secret w).1
    unfolding tradingview_webhook lift
    row-webhook raw secret = after-bind Kept _ _ w h.found (λ payload _.
        after-bind Kept _ _ w h.found (λ _ _.
          after-bind Kept _ _ w (row-process_signal payload) (λ t _. row-process_signal payload)))

    row-reconcile_trade :
        (p : Trade → Bool) (t : Trade)
        → find p w.db.trades ≡ some t
        → Kept (reconcile_trade host client t w).1
    row-reconcile_trade p t e =
        elim (self_or_other j row settled p w.db.trades t (h.keyed.ids j) h.found e) [
          | inl same ↦
              rw (reconcile_settled host client t w (ap is_terminal same ∙ settled)) h.found
          | inr other ↦ (Leaves-reconcile_trade host client j t other).same w ∙ h.found
        ]

    row-reconcile : (user : User) (trade_id : ℕ) → Kept (reconcile host client user trade_id w).1
    unfolding reconcile get_trade_for_user ◌>>=◌
    row-reconcile user trade_id = (go (get_trade_for_user user trade_id w.db) refl)
      where
        go :
            (o : Option Trade)
            → get_trade_for_user user trade_id w.db ≡ o
            → Kept ((trade_or_404 trade_id o >>= reconcile_trade host client) w).1
        go none e = h.found
        go (some t) e = row-reconcile_trade _ t e

    row-reconcile_pending_trades :
        (older_than limit : ℕ) → Kept (reconcile_pending_trades host client older_than limit w).1
    unfolding reconcile_pending_trades find_reconcilable_trades
    row-reconcile_pending_trades older_than limit =
        let cutoff = w.clock - 1000 * older_than in
        rw bind-gets (
          (Leaves-reconcile_all host client j _ _ (
              All-take _ limit _ (
                All-order_by _ _ _ (
                  All-select j row settled (is_reconcilable cutoff) w.db.trades
                    (not_reconcilable cutoff row settled) (h.keyed.ids j) h.found)))).same
            w
          ∙ h.found)

  row-worker_round : (w : World) → HasRow j row w → Kept (worker_round host client w).1
  unfolding worker_round
  row-worker_round w h = go w.queue
    where
      go : (items : List (ℕ × Text)) → Kept (run_item host client items w).1
      go [] = h.found
      go ((k, request_id) ∷ rest) =
          row-execute host client j row settled (record w { queue = rest; request_id = request_id })
            (record { keyed = h.keyed; found = h.found }) k

  -- One call.
  row-serve :
      (crypto : Crypto) (call : Call) (w : World)
      → HasRow j row w
      → Kept (serve host crypto client call w)
  unfolding serve run
  row-serve crypto (Call.webhook raw secret) w h = row-webhook w h raw secret
  row-serve crypto Call.work w h = row-worker_round w h
  row-serve crypto (Call.reconcile_one user trade_id) w h = row-reconcile w h user trade_id
  row-serve crypto (Call.reconcile_run older_than limit) w h =
      row-reconcile_pending_trades w h older_than limit
  row-serve crypto (Call.register email password) w h =
      (Leaves-register_user host crypto j email password).same w ∙ h.found
  row-serve crypto (Call.tick ms) w h = h.found
  row-serve crypto (Call.incoming request_id) w h = h.found
  row-serve crypto (Call.restart database_up) w h = rw ((startup_lem host database_up w).1) h.found

  row-serve_all :
      (crypto : Crypto) (calls : List Call) (w : World)
      → IsSafe (at_state w [])
      → Kept w
      → Kept (serve_all host crypto client calls w)
  unfolding serve_all
  row-serve_all crypto [] w safe found = found
  row-serve_all crypto (call ∷ calls) w safe found =
      row-serve_all crypto calls (serve host crypto client call w)
        (Reach-IsSafe host client (serve-Reach host client crypto call w) safe)
        (row-serve crypto call w (record { keyed = safe.keyed; found = found }))

-- A settled trade is final. From a start with well-keyed tables, once the calls served so far have
-- led to a row with the id `j` that is FILLED, CANCELLED, REJECTED, EXPIRED or FAILED, the calls
-- served after that, whichever they are and whatever their outcomes, leave that row, every column
-- of it, as it is. The calls run one after another.
pub settled_trade_is_final :
    (host : Host) (crypto : Crypto) (client : Client) (w : World) (before after : List Call) (j : ℕ)
    (row : Trade)
    → IsStart (at_state w [])
    → row_of j (serve_all host crypto client before w) ≡ some row
    → is_terminal row ≡ true
    → row_of j (serve_all host crypto client after (serve_all host crypto client before w))
      ≡ some row
settled_trade_is_final host crypto client w before after j row start found settled =
    row-serve_all host client j row settled crypto after (serve_all host crypto client before w)
      (Reach-IsSafe host client (serve_all-Reach host crypto client before w)
        (IsSafe-of_start (at_state w []) start))
      found
