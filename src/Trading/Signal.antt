-- ===== src/Trading/Signal.antt =====
-- What becomes of a signal: a new row, or the word that it was seen before.
use crypto_auto_trader.Base.{
  ℕ, ◌+◌, ◌≡◌, refl, ◌∙◌, Bool, true, false, none, some, List, [], ◌∷◌, ◌++◌, take, arith, any,
  Bool-cases, inl, inr,
}
use crypto_auto_trader.Text.{Text, text, text_eq, text_eq_iff, text_eq_sym}
use crypto_auto_trader.Models.{Trade, TradeStatus}
use crypto_auto_trader.Errors.{AppErrorClass, Exc, ok, err}
use crypto_auto_trader.Errors.Envelope.{app_message}
use crypto_auto_trader.Host.{Host}
use crypto_auto_trader.Store.{find, trade_conflicts, user_exists, insert_trade}
use crypto_auto_trader.World.{World}
use crypto_auto_trader.World.Runs.{
  bind_ok, bind_err, bind-gets, bind-attempt, bind-lift_ok, run-pure, run-raise, commit_insert-none,
}
use crypto_auto_trader.Payload.{Payload}
use crypto_auto_trader.BinanceClient.{Client}
use crypto_auto_trader.Trading.{
  validate_signal, resolve_trade_owner_id, pending_trade, winner_of, create_pending_trade,
  process_signal,
}

abbrev pub has_signal : Text → Trade → Bool
has_signal s t = text_eq s t.signal_id

conflict_of_signal :
    (t : Trade) (ts : List Trade)
    → any (has_signal t.signal_id) ts ≡ true
    → any (trade_conflicts t) ts ≡ true
conflict_of_signal t [] h = cc
conflict_of_signal t (x ∷ ts) h = ground (arith, conflict_of_signal t ts)

no_winner :
    (s : Text) (ts : List Trade)
    → any (has_signal s) ts ≡ false
    → find (λ (t : Trade). text_eq t.signal_id s) ts ≡ none
no_winner s [] h = refl
no_winner s (x ∷ ts) h = ground (arith, no_winner s ts, text_eq_sym s x.signal_id)

-- The first row of a signal.
first_row :
    (s : Text) (before after : List Trade) (t : Trade)
    → any (has_signal s) before ≡ false
    → t.signal_id ≡ s
    → find (λ (t : Trade). text_eq t.signal_id s) (before ++ t ∷ after) ≡ some t
first_row s [] after t fresh same = ground (arith, text_eq_iff t.signal_id s, same)
first_row s (x ∷ before) after t fresh same =
    ground (arith, first_row s before after t, text_eq_sym s x.signal_id, fresh, same)

any-middle :
    (s : Text) (before after : List Trade) (t : Trade)
    → t.signal_id ≡ s
    → any (has_signal s) (before ++ t ∷ after) ≡ true
any-middle s [] after t same = ground (arith, text_eq_iff s t.signal_id, same)
any-middle s (x ∷ before) after t same = ground (arith, any-middle s before after t same)

module _ (host : Host) (client : Client) (payload : Payload) (owner_id : ℕ) (w : World) where
  -- The row that the signal is to become: PENDING and never sent, with the signal's own values and
  -- nothing of the exchange yet.
  abbrev pub new_row : Trade
  new_row = record {
    id = w.db.next_trade_id;
    user_id = owner_id;
    signal_id = payload.signal_id;
    client_order_id = text "cat-" ++ take 28 (host.sha256_hex payload.signal_id);
    symbol = payload.symbol;
    side = payload.action;
    order_type = text "MARKET";
    quantity = payload.quantity;
    status = TradeStatus.pending;
    binance_order_id = none;
    binance_status = none;
    executed_quantity = none;
    cumulative_quote_quantity = none;
    error_code = none;
    error_message = none;
    submitted_at = none;
    reconciled_at = none;
    created_at = w.clock;
    updated_at = w.clock;
  }

  pub resolved : w.owner ≡ some owner_id → resolve_trade_owner_id host w ≡ (ok owner_id, w)
  unfolding resolve_trade_owner_id
  resolved e = rw (bind-gets, e, run-pure)

  refused :
      host.commit_fails w.commits ≡ false
      → insert_trade (pending_trade host payload owner_id w.clock) w.db ≡ none
      → create_pending_trade host payload owner_id w ≡ (
        err (
            Exc.app
              (AppErrorClass.duplicate_signal (winner_of payload.signal_id w))
              (app_message (AppErrorClass.duplicate_signal (winner_of payload.signal_id w)))),
        record w { commits = w.commits + 1 },
      )
  unfolding create_pending_trade
  refused up e = rw (
    bind-gets,
    bind-attempt,
    commit_insert-none host (insert_trade (pending_trade host payload owner_id w.clock)) w up e,
    bind-gets,
    run-raise,
  )

  process_signal_refused :
      validate_signal host payload ≡ ok tt
      → w.owner ≡ some owner_id
      → host.commit_fails w.commits ≡ false
      → insert_trade (pending_trade host payload owner_id w.clock) w.db ≡ none
      → process_signal host client payload w ≡ (
        err (
            Exc.app
              (AppErrorClass.duplicate_signal (winner_of payload.signal_id w))
              (app_message (AppErrorClass.duplicate_signal (winner_of payload.signal_id w)))),
        record w { commits = w.commits + 1 },
      )
  unfolding process_signal
  process_signal_refused valid owner up e =
      rw (valid, bind-lift_ok, bind_ok, resolved owner, bind_err, refused up e)

  refused_by_signal :
      any (has_signal payload.signal_id) w.db.trades ≡ true
      → insert_trade (pending_trade host payload owner_id w.clock) w.db ≡ none
  unfolding insert_trade pending_trade
  refused_by_signal seen =
      rw (conflict_of_signal (pending_trade host payload owner_id w.clock) w.db.trades seen)

  refused_by_owner :
      user_exists owner_id w.db ≡ false
      → insert_trade (pending_trade host payload owner_id w.clock) w.db ≡ none
  unfolding insert_trade pending_trade
  refused_by_owner gone =
      elim (Bool-cases
        (any (trade_conflicts (pending_trade host payload owner_id w.clock)) w.db.trades)) [
          | inl e ↦ rw e
          | inr e ↦ rw (e, gone)
        ]

pub refused_as_seen :
    (host : Host) (client : Client) (payload : Payload) (owner_id : ℕ) (w : World)
    → validate_signal host payload ≡ ok tt
    → w.owner ≡ some owner_id
    → host.commit_fails w.commits ≡ false
    → any (has_signal payload.signal_id) w.db.trades ≡ true
    → process_signal host client payload w ≡ (
      err (
          Exc.app
            (AppErrorClass.duplicate_signal (winner_of payload.signal_id w))
            (app_message (AppErrorClass.duplicate_signal (winner_of payload.signal_id w)))),
      record w { commits = w.commits + 1 },
    )
refused_as_seen host client payload owner_id w valid owner up seen =
    process_signal_refused host client payload owner_id w valid owner up
      (refused_by_signal host client payload owner_id w seen)

-- A signal that passes validation and whose id is already recorded, in a row of the table of trades,
-- is refused as a duplicate that names the id of that row, the first of the signal. Nothing is
-- written, queued or sent. The owner's id is cached and the database answers.
pub process_signal_duplicate :
    (host : Host) (client : Client) (payload : Payload) (owner_id : ℕ) (w : World)
    (before after : List Trade) (recorded_trade : Trade)
    → validate_signal host payload ≡ ok tt
    → w.owner ≡ some owner_id
    → host.commit_fails w.commits ≡ false
    → w.db.trades ≡ before ++ recorded_trade ∷ after
    → any (has_signal payload.signal_id) before ≡ false
    → recorded_trade.signal_id ≡ payload.signal_id
    → process_signal host client payload w ≡ (
      err (
          Exc.app
            (AppErrorClass.duplicate_signal (some recorded_trade.id))
            (app_message (AppErrorClass.duplicate_signal (some recorded_trade.id)))),
      record w { commits = w.commits + 1 },
    )
process_signal_duplicate host client payload owner_id w before after recorded_trade valid owner up
      rows first same =
    let seen : any (has_signal payload.signal_id) w.db.trades ≡ true =
      rw rows (any-middle payload.signal_id before after recorded_trade same) in
    let winner : winner_of payload.signal_id w ≡ some recorded_trade.id =
      rw (rows, first_row payload.signal_id before after recorded_trade first same) refl in
    refused_as_seen host client payload owner_id w valid owner up seen ∙ rw winner refl

-- When the account of the cached owner id is gone, a signal that passes validation is answered as a
-- duplicate although its id is not recorded; the answer names no trade, and nothing is written,
-- queued or sent. The database answers.
pub stale_owner_reads_as_duplicate :
    (host : Host) (client : Client) (payload : Payload) (owner_id : ℕ) (w : World)
    → validate_signal host payload ≡ ok tt
    → w.owner ≡ some owner_id
    → host.commit_fails w.commits ≡ false
    → user_exists owner_id w.db ≡ false
    → any (has_signal payload.signal_id) w.db.trades ≡ false
    → process_signal host client payload w ≡ (
      err (
          Exc.app
            (AppErrorClass.duplicate_signal none)
            (app_message (AppErrorClass.duplicate_signal none))),
      record w { commits = w.commits + 1 },
    )
stale_owner_reads_as_duplicate host client payload owner_id w valid owner up gone fresh =
    process_signal_refused host client payload owner_id w valid owner up
      (refused_by_owner host client payload owner_id w gone)
    ∙ rw (no_winner payload.signal_id w.db.trades fresh)
