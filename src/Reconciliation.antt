-- ===== src/Reconciliation.antt =====
-- app/services/reconciliation_service.py: ask the exchange about a trade, and record the answer.
-- Where the source returns the status, these return the trade as it stands in memory afterwards.
pub mod ReadOnly
pub mod Answers
pub mod Unsent
pub mod Totals
use crypto_auto_trader.Base.{
  ℕ, ◌+◌, ◌-◌, ◌*◌, Bool, ◌&&◌, Option, none, some, List, [], ◌∷◌, ltb, if◌then◌else◌, select, take,
}
use crypto_auto_trader.Models.{
  Trade, TradeStatus, status_eq, status_in, reconcilable_statuses, is_terminal,
}
use crypto_auto_trader.Errors.{Exc, Result, ok, err}
use crypto_auto_trader.Store.{Db, order_by, update_trade}
use crypto_auto_trader.Host.{Host}
use crypto_auto_trader.World.{World, Exec, pure, raise, gets, attempt, commit, ◌>>=◌, ◌>>◌}
use crypto_auto_trader.Binance.{BinanceOrderResult}
use crypto_auto_trader.BinanceClient.{Client, get_order}
use crypto_auto_trader.Outcomes.{not_found_changes, found_changes}

-- The rows that a run checks: in flight, and created before the cutoff.
abbrev pub is_reconcilable : ℕ → Trade → Bool
is_reconcilable cutoff t = status_in t.status reconcilable_statuses && ltb t.created_at cutoff

-- `find_reconcilable_trades`
unfoldable pub find_reconcilable_trades : ℕ → ℕ → World → List Trade
find_reconcilable_trades older_than_seconds limit w = take limit (
    order_by (λ (a b : Trade). ltb a.created_at b.created_at)
      (select (is_reconcilable (w.clock - 1000 * older_than_seconds)) w.db.trades))

pub record Summary : Type 0 where
  pub checked : ℕ
  pub changed : ℕ
  pub unchanged : ℕ

abbrev pub tally : TradeStatus → TradeStatus → Summary → Summary
tally before after s =
    if status_eq before after
    then record s { checked = s.checked + 1; unchanged = s.unchanged + 1 }
    else record s { checked = s.checked + 1; changed = s.changed + 1 }

module _ (host : Host) where
  -- Assign, commit, and hand the object back.
  unfoldable pub save : Trade → (Trade → Trade) → Exec Trade
  save trade f = do commit host (update_trade trade.id f); pure (f trade)

  -- What `reconcile_trade` does with the answer to its query.
  unfoldable pub record_answer : Trade → Result (Option BinanceOrderResult) → Exec Trade
  unfolding save
  record_answer trade (ok none) = do now ← gets (λ w. w.clock); save trade (not_found_changes now)
  record_answer trade (ok (some result)) = do
    now ← gets (λ w. w.clock)
    save trade (found_changes result now)
  record_answer trade (err (Exc.binance _)) = pure trade
  record_answer trade (err e) = raise e

  -- `reconcile_trade`
  unfoldable pub reconcile_trade : Client → Trade → Exec Trade
  reconcile_trade client trade = if is_terminal trade then pure trade else (do
    answer ← attempt (get_order host client trade.symbol trade.client_order_id)
    record_answer trade answer)

  -- The loop of `reconcile_pending_trades`.
  unfoldable pub reconcile_all : Client → List Trade → Summary → Exec Summary
  reconcile_all client [] summary = pure summary
  reconcile_all client (trade ∷ rest) summary = do
    after ← reconcile_trade client trade
    reconcile_all client rest (tally trade.status after.status summary)

  -- `reconcile_pending_trades`
  unfoldable pub reconcile_pending_trades : Client → ℕ → ℕ → Exec Summary
  unfolding reconcile_all
  reconcile_pending_trades client older_than_seconds limit = do
    trades ← gets (find_reconcilable_trades older_than_seconds limit)
    reconcile_all client trades (record { checked = 0; changed = 0; unchanged = 0 })
