-- ===== src/Reconciliation/Answers.antt =====
-- What a reconciliation makes of each answer.
use crypto_auto_trader.Base.{
  ℕ, ◌+◌, ◌-◌, ◌*◌, ◌<◌, ◌≡◌, ◌≢◌, sym, ap, ◌∙◌, inl, inr, refl, true, false, Option, none, some,
  List, [], ◌∷◌, arith, length, select, All, Bool-cases, ltb,
}
use crypto_auto_trader.Text.{Text}
use crypto_auto_trader.Models.{Trade, TradeStatus, status_in, is_terminal}
use crypto_auto_trader.Errors.{BinanceError, Exc, Result, ok, err}
use crypto_auto_trader.Host.{Host}
use crypto_auto_trader.Store.{update_trade, order_by}
use crypto_auto_trader.Store.Order.{All-take, All-order_by, length-take, length-order_by}
use Prim.Native.Nat.{min}
use crypto_auto_trader.World.{World, ◌>>=◌}
use crypto_auto_trader.World.Runs.{bind_ok, bind_err, bind-attempt, run-pure, commit_ok, commit_err}
use crypto_auto_trader.Binance.{BinanceOrderResult}
use crypto_auto_trader.BinanceClient.{Client, get_order}
use crypto_auto_trader.BinanceClient.Calls.{db-get_order}
use crypto_auto_trader.Outcomes.{binance_status_map, map_status, found_changes}
use crypto_auto_trader.Reconciliation.{
  save, record_answer, reconcile_trade, is_reconcilable, find_reconcilable_trades,
}

-- The statuses that the exchange's word can lead to.
abbrev pub exchange_statuses : List TradeStatus
exchange_statuses =
    TradeStatus.new ∷ TradeStatus.partially_filled ∷ TradeStatus.filled ∷ TradeStatus.cancelled
    ∷ TradeStatus.rejected ∷ TradeStatus.expired ∷ []

-- No word of the exchange leads to PENDING, UNKNOWN or FAILED.
pub map_status_range : (s : Text) → status_in (map_status s) exchange_statuses ≡ true
unfolding map_status binance_status_map
map_status_range s = ground arith

module _ (host : Host) (client : Client) (trade : Trade) (w : World) where
  -- A settled trade is handed back with nothing asked and nothing written.
  pub reconcile_settled :
      is_terminal trade ≡ true → reconcile_trade host client trade w ≡ (ok trade, w)
  unfolding reconcile_trade
  reconcile_settled settled = rw (settled, run-pure)

  -- An open trade is asked about first.
  pub reconcile_open :
      is_terminal trade ≡ false
      → reconcile_trade host client trade w ≡ (
          let (answer, w') = get_order host client trade.symbol trade.client_order_id w in
          record_answer host trade answer w')
  unfolding reconcile_trade
  reconcile_open open_trade = rw (open_trade, bind-attempt)

module _ (host : Host) (trade : Trade) where
  pub save_ok :
      (f : Trade → Trade) (w : World)
      → host.commit_fails w.commits ≡ false
      → save host trade f w
        ≡ (ok (f trade), record w { db = update_trade trade.id f w.db; commits = w.commits + 1 })
  unfolding save
  save_ok f w up = rw (bind_ok, commit_ok host (update_trade trade.id f) w up, run-pure)

  pub save_err :
      (f : Trade → Trade) (w : World)
      → host.commit_fails w.commits ≡ true
      → save host trade f w ≡ (err Exc.sqlalchemy_error, record w { commits = w.commits + 1 })
  unfolding save
  save_err f w down = rw (bind_err, commit_err host (update_trade trade.id f) w down)

  -- What `save` hands back, if it returns, is the changed trade.
  pub save_returns :
      (f : Trade → Trade) (w : World) (t : Trade) → (save host trade f w).0 ≡ ok t → t ≡ f trade
  save_returns f w t h = elim (Bool-cases (host.commit_fails w.commits)) [
    | inl down ↦ cc (h, save_err f w down)
    | inr up ↦ cc (h, save_ok f w up)
  ]

  found-ne-failed :
      (result : BinanceOrderResult) (now : ℕ)
      → (found_changes result now trade).status ≢ TradeStatus.failed
  unfolding found_changes
  found-ne-failed result now h = ground (arith, map_status_range result.status)

  answer_of_failed :
      (r : Result (Option BinanceOrderResult)) (w : World) (t : Trade)
      → trade.status ≢ TradeStatus.failed
      → (record_answer host trade r w).0 ≡ ok t
      → t.status ≡ TradeStatus.failed
      → r ≡ ok none
  unfolding record_answer ◌>>=◌
  answer_of_failed (ok none) w t open_trade h e = refl
  answer_of_failed (ok (some result)) w t open_trade h e = absurd (
      found-ne-failed result w.clock (
        ap (λ (x : Trade). x.status) (sym (save_returns (found_changes result w.clock) w t h)) ∙ e))
  answer_of_failed (err (Exc.binance x)) w t open_trade h e = absurd (open_trade (ground arith))
  answer_of_failed (err x) w t open_trade h e = cc

not_failed : (trade : Trade) → is_terminal trade ≡ false → trade.status ≢ TradeStatus.failed
unfolding is_terminal
not_failed trade h e = ground arith

-- A reconciliation declares an open trade FAILED only on the word of the exchange that it has no
-- such order: if the call returns the trade as FAILED, the lookup of the order had reported none.
pub failed_only_if_no_order :
    (host : Host) (client : Client) (trade t : Trade) (w : World)
    → is_terminal trade ≡ false
    → (reconcile_trade host client trade w).0 ≡ ok t
    → t.status ≡ TradeStatus.failed
    → (get_order host client trade.symbol trade.client_order_id w).0 ≡ ok none
failed_only_if_no_order host client trade t w open_trade h e =
    let (answer, w') = get_order host client trade.symbol trade.client_order_id w in
    answer_of_failed host trade answer w' t (not_failed trade open_trade)
      (rw (← reconcile_open host client trade w open_trade) h) e

-- A query that got no answer, or a refusal other than "order does not exist", changes nothing: the
-- trade is handed back as it was, and the tables are as they were.
could_not_ask :
    (host : Host) (client : Client) (trade : Trade) (e : BinanceError) (w : World)
    → is_terminal trade ≡ false
    → (get_order host client trade.symbol trade.client_order_id w).0 ≡ err (Exc.binance e)
    → ((reconcile_trade host client trade w).0 ≡ ok trade)
      × ((reconcile_trade host client trade w).1.db ≡ w.db)
unfolding record_answer
could_not_ask host client trade e w open_trade h = (
  rw (reconcile_open host client trade w open_trade, h, run-pure),
  rw (reconcile_open host client trade w open_trade, h, run-pure)
      (db-get_order host client trade.symbol trade.client_order_id w),
)

open_rows :
    (cutoff : ℕ) (ts : List Trade)
    → All
        (λ t. (is_terminal t ≡ false) × (t.created_at < cutoff))
        (select (is_reconcilable cutoff) ts)
unfolding is_terminal
open_rows cutoff [] = tt
open_rows cutoff (t ∷ ts) = ground (arith, open_rows cutoff ts)

-- The rows of a run are open trades created before the cutoff, `limit` of them at most and all of
-- them where the limit allows it.
find_reconcilable_trades_sound :
    (older_than_seconds limit : ℕ) (w : World)
    → let cutoff = w.clock - 1000 * older_than_seconds in
      let found = find_reconcilable_trades older_than_seconds limit w in
      All (λ t. (is_terminal t ≡ false) × (t.created_at < cutoff)) found
      × (length found ≡ min limit (length (select (is_reconcilable cutoff) w.db.trades)))
unfolding find_reconcilable_trades is_terminal
find_reconcilable_trades_sound older_than_seconds limit w =
    let cutoff = w.clock - 1000 * older_than_seconds in
    let before = λ (a b : Trade). ltb a.created_at b.created_at in
    let rows = select (is_reconcilable cutoff) w.db.trades in
    (
      All-take _ limit _ (All-order_by before _ rows (open_rows cutoff w.db.trades)),
      length-take limit (order_by before rows) ∙ ap (min limit) (length-order_by before rows),
    )
