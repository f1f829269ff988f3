-- ===== src/Reconciliation/ReadOnly.antt =====
-- How many orders a reconciliation places.
use crypto_auto_trader.Base.{ℕ, ◌≡◌, Option, none, some, List, [], ◌∷◌, arith}
use crypto_auto_trader.Models.{Trade}
use crypto_auto_trader.Errors.{Exc, Result, ok, err}
use crypto_auto_trader.Host.{Host}
use crypto_auto_trader.World.{World}
use crypto_auto_trader.World.Places.{Places, post_count, places_rules}
use crypto_auto_trader.Binance.{BinanceOrderResult}
use crypto_auto_trader.BinanceClient.{Client}
use crypto_auto_trader.BinanceClient.Calls.{Places-get_order}
use crypto_auto_trader.Reconciliation.{
  save, record_answer, reconcile_trade, Summary, reconcile_all, reconcile_pending_trades,
}

module _ (host : Host) where
  pub Places-save : (trade : Trade) (f : Trade → Trade) → Places 0 (save host trade f)
  unfolding save
  Places-save trade f = search places_rules

  pub Places-record_answer :
      (trade : Trade) (r : Result (Option BinanceOrderResult))
      → Places 0 (record_answer host trade r)
  unfolding record_answer
  Places-record_answer trade (ok none) = search places_rules
  Places-record_answer trade (ok (some result)) = search places_rules
  Places-record_answer trade (err (Exc.binance e)) = search places_rules
  Places-record_answer trade (err e) = search places_rules

  pub Places-reconcile_trade :
      (client : Client) (trade : Trade) → Places 0 (reconcile_trade host client trade)
  unfolding reconcile_trade
  Places-reconcile_trade client trade =
      search (places_rules, Places-get_order, Places-record_answer)

  Places-reconcile_all :
      (client : Client) (trades : List Trade) (summary : Summary)
      → Places 0 (reconcile_all host client trades summary)
  unfolding reconcile_all
  Places-reconcile_all client [] summary = search places_rules
  Places-reconcile_all client (trade ∷ rest) summary =
      search (places_rules, Places-reconcile_trade, Places-reconcile_all client rest)

  pub Places-reconcile_pending_trades :
      (client : Client) (older_than_seconds limit : ℕ)
      → Places 0 (reconcile_pending_trades host client older_than_seconds limit)
  unfolding reconcile_pending_trades
  Places-reconcile_pending_trades client older_than_seconds limit =
      search (places_rules, Places-reconcile_all)

-- A reconciliation run places no order: whatever the exchange answers, and whether the run
-- completes or raises, the number of POST requests is the same before and after.
pub reconcile_pending_trades_places_nothing :
    (host : Host) (client : Client) (older_than_seconds limit : ℕ) (w : World)
    → post_count (reconcile_pending_trades host client older_than_seconds limit w).1.requests
      ≡ post_count w.requests
reconcile_pending_trades_places_nothing host client older_than_seconds limit w =
    let p = Places-reconcile_pending_trades host client older_than_seconds limit in
    omega (arith, p.least w, p.most w)
