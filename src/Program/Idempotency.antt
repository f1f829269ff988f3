-- ===== src/Program/Idempotency.antt =====
-- A signal is executed once in the life of the service: whatever is served after it was accepted,
-- its second delivery is refused.
use crypto_auto_trader.Base.{
  ℕ, ◌+◌, ◌≡◌, sym, true, false, some, List, [], ◌∷◌, ◌++◌, arith, any, ap,
}
use crypto_auto_trader.Text.{Text, text_eq_iff}
use crypto_auto_trader.Models.{Trade}
use crypto_auto_trader.Errors.{Exc, Result, ok, err, AppErrorClass}
use crypto_auto_trader.Errors.Envelope.{app_message}
use crypto_auto_trader.Host.{Host}
use crypto_auto_trader.Store.{trade_conflicts, insert_trade}
use crypto_auto_trader.Store.Laws.{insert_trade_inv}
use crypto_auto_trader.World.{World, Exec, commit_insert, lift, ◌>>=◌}
use crypto_auto_trader.World.Runs.{bind_inv, bind-gets, bind-attempt, pure_inv, commit_insert_inv}
use crypto_auto_trader.World.Gives.{Gives, gives_inv}
use crypto_auto_trader.Payload.{Payload}
use crypto_auto_trader.BinanceClient.{Client}
use crypto_auto_trader.Security.{Crypto}
use crypto_auto_trader.Trading.{
  pending_trade, created, create_pending_trade, process_signal, winner_of, validate_signal,
}
use crypto_auto_trader.Trading.Signal.{has_signal, refused_as_seen}
use crypto_auto_trader.Trading.Returned.{Named, submitted-Named}
use crypto_auto_trader.Executor.System.Refines.{Refines}
use crypto_auto_trader.Executor.System.Remembered.{recorded_as, Reach-recorded}
use crypto_auto_trader.Program.{Call, serve_all}
use crypto_auto_trader.Program.Refinement.{Refines-submitted, serve_all-Reach}

-- The row that an INSERT adds is the one on record for its signal.
recorded_as-new :
    (t row : Trade) (ts : List Trade)
    → any (trade_conflicts t) ts ≡ false
    → row.signal_id ≡ t.signal_id
    → recorded_as t.signal_id (ts ++ row ∷ []) ≡ some row.id
recorded_as-new t row [] free e = ground (arith, text_eq_iff row.signal_id t.signal_id, e)
recorded_as-new t row (x ∷ ts) free e = ground (
  arith,
  recorded_as-new t row ts,
  text_eq_iff x.signal_id t.signal_id,
  text_eq_iff t.signal_id x.signal_id,
)

created_inv :
    (host : Host) (payload : Payload) (r : Result Trade) (w w' : World) (row : Trade)
    → created host payload r w ≡ (ok row, w')
    → (r ≡ ok row) × (w' ≡ w)
unfolding ◌>>=◌
created_inv host payload (ok t) w w' row h =
    let (named, same) = pure_inv t row w w' h in (ap ok (sym named), same)
created_inv host payload (err Exc.integrity_error) w w' row h = cc
created_inv host payload (err e) w w' row h = cc

seen_of_winner :
    (s : Text) (k : ℕ) (w : World) → winner_of s w ≡ some k → any (has_signal s) w.db.trades ≡ true
seen_of_winner s k w h = go w.db.trades h
  where
    go : (ts : List Trade) → recorded_as s ts ≡ some k → any (has_signal s) ts ≡ true
    go [] h = cc
    go (t ∷ ts) h = ground (arith, go ts, text_eq_iff t.signal_id s, text_eq_iff s t.signal_id, h)

run_of :
    {A : Type 0} (x : Result A × World) (r : Result A) (w' : World)
    → x.0 ≡ r
    → w' ≡ x.1
    → x ≡ (r, w')
run_of (r0, w0) r w' e same = cc

-- A row that was created is the one on record.
create_pending_trade-recorded :
    (host : Host) (payload : Payload) (owner_id : ℕ) (w w' : World) (row : Trade)
    → create_pending_trade host payload owner_id w ≡ (ok row, w')
    → winner_of payload.signal_id w' ≡ some row.id
unfolding create_pending_trade pending_trade
create_pending_trade-recorded host payload owner_id w w' row h =
    let t = pending_trade host payload owner_id w.clock in
    let m = commit_insert host (insert_trade t) in
    let (e, same) =
      created_inv host payload (m w).0 (m w).1 w' row (rw (bind-gets, bind-attempt) at h) in
    let (db, inserted, now) =
      commit_insert_inv host (insert_trade t) w w' row (run_of (m w) (ok row) w' e same) in
    let (named, rows, _, _, free, _) = insert_trade_inv t row w.db db inserted in
    rw (now, rows) (recorded_as-new t row w.db.trades free (ap (λ (r : Trade). r.signal_id) named))

-- What follows the INSERT keeps the record, and hands back the same trade.
still_on_record :
    (host : Host) (client : Client) (s : Text) (k : ℕ) (m : Exec Trade) (w w' : World) (t : Trade)
    → Gives (Named k) m
    → Refines host client m
    → winner_of s w ≡ some k
    → m w ≡ (ok t, w')
    → winner_of s w' ≡ some t.id
still_on_record host client s k m w w' t gives steps seen h =
    rw (gives_inv (Named k) m w w' t gives h, ← ap (λ (x : Result Trade × World). x.1) h)
      (Reach-recorded host client s k (steps.steps w []) seen)

lift_inv : {A : Type 0} (r : Result A) (a : A) (w w' : World) → lift r w ≡ (ok a, w') → r ≡ ok a
unfolding lift
lift_inv r a w w' h = cc

-- A signal that was accepted passed validation, and is on record as the trade that was handed back.
accepted_on_record :
    (host : Host) (client : Client) (payload : Payload) (t : Trade) (w w' : World)
    → process_signal host client payload w ≡ (ok t, w')
    → (validate_signal host payload ≡ ok tt) × (winner_of payload.signal_id w' ≡ some t.id)
unfolding process_signal
accepted_on_record host client payload t w w' h =
    let (_, w1, checked, h1) = bind_inv _ _ w w' t h in
    let (owner_id, w2, _, h2) = bind_inv _ _ w1 w' t h1 in
    let (row, w3, made, h3) = bind_inv _ _ w2 w' t h2 in
    let async = host.settings.webhook_async_execution in
    (
      lift_inv _ tt w w1 checked,
      still_on_record host client payload.signal_id row.id _ w3 w' t
          (submitted-Named host client row async) (Refines-submitted host client row async)
          (create_pending_trade-recorded host payload owner_id w2 w3 row made) h3,
    )

-- A signal that was accepted as a trade is never executed again: whatever is served afterwards, in
-- any order and with any outcomes (other signals, the rounds of the workers, reconciliations,
-- registrations, restarts), a second delivery of its id is refused as a duplicate that names the
-- trade, and nothing is written, queued or sent. The cached owner id is there when it comes, and
-- the database answers.
pub accepted_signal_stays_duplicate :
    (host : Host) (crypto : Crypto) (client : Client) (payload : Payload) (t : Trade) (w w' : World)
    (calls : List Call) (owner_id : ℕ)
    → process_signal host client payload w ≡ (ok t, w')
    → let later = serve_all host crypto client calls w' in
      later.owner ≡ some owner_id
      → host.commit_fails later.commits ≡ false
      → process_signal host client payload later ≡ (
        err (
            Exc.app
              (AppErrorClass.duplicate_signal (some t.id))
              (app_message (AppErrorClass.duplicate_signal (some t.id)))),
        record later { commits = later.commits + 1 },
      )
accepted_signal_stays_duplicate host crypto client payload t w w' calls owner_id h owner up =
    let later = serve_all host crypto client calls w' in
    let (valid, seen) = accepted_on_record host client payload t w w' h in
    let kept =
      Reach-recorded host client payload.signal_id t.id
        (serve_all-Reach host crypto client calls w') seen in
    let refused =
      refused_as_seen host client payload owner_id later valid owner up
        (seen_of_winner payload.signal_id t.id later kept) in
    rw (← kept) refused
