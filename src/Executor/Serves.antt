-- ===== src/Executor/Serves.antt =====
-- The operations of the program as sequences of steps, and the program as a list of calls.
use crypto_auto_trader.Base.{ℕ, Option, none, some, List, [], ◌∷◌}
use crypto_auto_trader.Text.{Text}
use crypto_auto_trader.Models.{Trade, TradeStatus}
use crypto_auto_trader.Errors.{BinanceErrorClass, BinanceError, Exc, Result, ok, err}
use crypto_auto_trader.Host.{Host}
use crypto_auto_trader.Binance.{BinanceOrderResult}
use crypto_auto_trader.BinanceClient.{Client}
use crypto_auto_trader.Outcomes.Keeps.{Outcome}
use crypto_auto_trader.Reconciliation.{
  save, record_answer, reconcile_trade, Summary, reconcile_all, reconcile_pending_trades,
}
use crypto_auto_trader.Trading.{
  keep_trade, handle_uncertain_outcome, finalise_success, finalise_failure, failure_of,
  record_outcome, submit_to_binance,
}
use crypto_auto_trader.Executor.System.Refines.{
  Refines, Spends, refines_rules, Spends-place_order, Refines-write, Refines-query,
}

module _ (host : Host) (client : Client) where
  Refines-save :
      (trade : Trade) (f : Trade → Trade) → Outcome host f → Refines host client (save host trade f)
  unfolding save
  Refines-save trade f o = search (refines_rules, Refines-write, o)

  ruleset outcomes = (
    Outcome.success, Outcome.failure, Outcome.uncertain, Outcome.not_found, Outcome.found,
    Refines-save,
  )

  Refines-record_answer :
      (trade : Trade) (r : Result (Option BinanceOrderResult))
      → Refines host client (record_answer host trade r)
  unfolding record_answer
  Refines-record_answer trade (ok none) = search (refines_rules, outcomes)
  Refines-record_answer trade (ok (some result)) = search (refines_rules, outcomes)
  Refines-record_answer trade (err (Exc.binance e)) = search refines_rules
  Refines-record_answer trade (err e) = search refines_rules

  pub Refines-reconcile_trade :
      (trade : Trade) → Refines host client (reconcile_trade host client trade)
  unfolding reconcile_trade
  Refines-reconcile_trade trade = search (refines_rules, Refines-query, Refines-record_answer)

  Refines-reconcile_all :
      (trades : List Trade) (summary : Summary)
      → Refines host client (reconcile_all host client trades summary)
  unfolding reconcile_all
  Refines-reconcile_all [] summary = search refines_rules
  Refines-reconcile_all (trade ∷ rest) summary =
      search (refines_rules, Refines-reconcile_trade, Refines-reconcile_all rest)

  pub Refines-reconcile_pending_trades :
      (older_than_seconds limit : ℕ)
      → Refines host client (reconcile_pending_trades host client older_than_seconds limit)
  unfolding reconcile_pending_trades
  Refines-reconcile_pending_trades older_than_seconds limit =
      search (refines_rules, Refines-reconcile_all)

  Refines-keep_trade :
      (trade : Trade) (r : Result Trade) → Refines host client (keep_trade host trade r)
  Refines-keep_trade trade (ok t) = search refines_rules
  Refines-keep_trade trade (err e) = search refines_rules

  Refines-handle_uncertain_outcome :
      (trade : Trade) (e : BinanceError)
      → Refines host client (handle_uncertain_outcome host client trade e)
  unfolding handle_uncertain_outcome
  Refines-handle_uncertain_outcome trade e =
      search (refines_rules, outcomes, Refines-reconcile_trade, Refines-keep_trade)

  Refines-finalise_success :
      (trade : Trade) (r : BinanceOrderResult) → Refines host client (finalise_success host trade r)
  unfolding finalise_success
  Refines-finalise_success trade r = search (refines_rules, outcomes)

  Refines-finalise_failure :
      (trade : Trade) (s : TradeStatus) (code message : Text)
      → Refines host client (finalise_failure host trade s code message)
  unfolding finalise_failure
  Refines-finalise_failure trade s code message = search (refines_rules, outcomes)

  Refines-failure_of :
      (c : BinanceErrorClass) (trade : Trade) (e : BinanceError)
      → Refines host client (failure_of host c client trade e)
  Refines-failure_of BinanceErrorClass.uncertain trade e = search (Refines-handle_uncertain_outcome)
  Refines-failure_of _ trade e = search (Refines-finalise_failure)

  Refines-record_outcome :
      (trade : Trade) (r : Result BinanceOrderResult)
      → Refines host client (record_outcome host client trade r)
  unfolding record_outcome
  Refines-record_outcome trade (ok r) = search (Refines-finalise_success)
  Refines-record_outcome trade (err (Exc.binance e)) = search (Refines-failure_of)
  Refines-record_outcome trade (err e) = search refines_rules

  pub Spends-submit_to_binance :
      (trade : Trade) → Spends host client trade (submit_to_binance host client trade)
  unfolding submit_to_binance
  Spends-submit_to_binance trade = search (Spends-place_order, Refines-record_outcome)
