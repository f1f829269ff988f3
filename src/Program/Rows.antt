-- ===== src/Program/Rows.antt =====
-- Which row a call writes: one trade's outcome leaves the rows of the others alone.
use crypto_auto_trader.Base.{
  ℕ, ◌≡◌, ◌≢◌, refl, sym, ◌∙◌, Option, none, some, List, [], ◌∷◌, arith, All, inl, inr,
}
use crypto_auto_trader.Text.{Text}
use crypto_auto_trader.Models.{Trade}
use crypto_auto_trader.Errors.{BinanceErrorClass, BinanceError, Exc, Result, ok, err}
use crypto_auto_trader.Host.{Host}
use crypto_auto_trader.Store.{find, has_id, update_where, update_trade}
use crypto_auto_trader.World.{World, attempt, commit, ◌>>=◌}
use crypto_auto_trader.World.Leaves.{Leaves, Leaves-attempt, Leaves-bind, leaves_rules}
use crypto_auto_trader.World.Gives.{Leaves-given}
use crypto_auto_trader.Trading.Returned.{Named, Gives-save}
use crypto_auto_trader.Binance.{BinanceOrderResult}
use crypto_auto_trader.BinanceClient.{Client, get_order}
use crypto_auto_trader.BinanceClient.Calls.{db-get_order}
use crypto_auto_trader.Outcomes.Keeps.{KeepsKey, Outcome, Outcome-KeepsKey}
use crypto_auto_trader.Reconciliation.{Summary, save, record_answer, reconcile_trade, reconcile_all}
use crypto_auto_trader.Trading.{
  keep_trade, handle_uncertain_outcome, finalise_success, finalise_failure, failure_of,
  record_outcome, place_order, submit_to_binance,
}
use crypto_auto_trader.Executor.System.Effects.{commit_cases, db-place_order}

abbrev pub row_of : ℕ → World → Option Trade
row_of j w = find (has_id j) w.db.trades

find-update_other :
    (j k : ℕ) (f : Trade → Trade)
    → k ≢ j
    → KeepsKey f
    → (ts : List Trade) → find (has_id j) (update_where (has_id k) f ts) ≡ find (has_id j) ts
find-update_other j k f ne keeps [] = refl
find-update_other j k f ne keeps (t ∷ ts) =
    ground (arith, keeps t, find-update_other j k f ne keeps ts)

module _ (host : Host) (client : Client) (j : ℕ) where
  Leaves-write :
      (k : ℕ) (f : Trade → Trade)
      → k ≢ j
      → Outcome host f
      → Leaves (row_of j) (commit host (update_trade k f))
  unfolding update_trade
  Leaves-write k f ne o = record {
    same = λ w. elim (commit_cases host (update_trade k f) w) [
      | inl e ↦ rw e
      | inr e ↦ rw e (find-update_other j k f ne (Outcome-KeepsKey host o) w.db.trades)
    ];
  }

  Leaves-query :
      (symbol client_order_id : Text)
      → Leaves (row_of j) (get_order host client symbol client_order_id)
  Leaves-query symbol client_order_id = record { same = λ w. rw db-get_order refl }

  Leaves-place : (t : Trade) → Leaves (row_of j) (place_order host client t)
  Leaves-place t = record { same = λ w. rw db-place_order refl }

  Leaves-save :
      (trade : Trade) (f : Trade → Trade)
      → trade.id ≢ j
      → Outcome host f
      → Leaves (row_of j) (save host trade f)
  unfolding save
  Leaves-save trade f ne o = search (leaves_rules, Leaves-write, o, ne)

  ruleset outcomes = (
    Outcome.success, Outcome.failure, Outcome.uncertain, Outcome.not_found, Outcome.found,
    Leaves-save,
  )

  Leaves-record_answer :
      (trade : Trade) (r : Result (Option BinanceOrderResult))
      → trade.id ≢ j
      → Leaves (row_of j) (record_answer host trade r)
  unfolding record_answer
  Leaves-record_answer trade (ok none) ne = search (leaves_rules, outcomes, ne)
  Leaves-record_answer trade (ok (some result)) ne = search (leaves_rules, outcomes, ne)
  Leaves-record_answer trade (err (Exc.binance e)) ne = search leaves_rules
  Leaves-record_answer trade (err e) ne = search leaves_rules

  pub Leaves-reconcile_trade :
      (trade : Trade) → trade.id ≢ j → Leaves (row_of j) (reconcile_trade host client trade)
  unfolding reconcile_trade
  Leaves-reconcile_trade trade ne = search (leaves_rules, Leaves-query, Leaves-record_answer, ne)

  pub Leaves-reconcile_all :
      (trades : List Trade) (summary : Summary)
      → All (λ (t : Trade). t.id ≢ j) trades
      → Leaves (row_of j) (reconcile_all host client trades summary)
  unfolding reconcile_all
  Leaves-reconcile_all [] summary ne = search leaves_rules
  Leaves-reconcile_all (trade ∷ rest) summary ne =
      Leaves-bind (row_of j) (reconcile_trade host client trade) _
        (Leaves-reconcile_trade trade ne.0) (λ after. Leaves-reconcile_all rest _ ne.1)

  Leaves-keep_trade :
      (trade : Trade) (r : Result Trade) → Leaves (row_of j) (keep_trade host trade r)
  Leaves-keep_trade trade (ok t) = search leaves_rules
  Leaves-keep_trade trade (err e) = search leaves_rules

  Leaves-recheck :
      (trade unknown : Trade)
      → trade.id ≢ j
      → Named trade.id unknown
      → Leaves
          (row_of j)
          (attempt (reconcile_trade host client unknown) >>= λ r. keep_trade host unknown r)
  Leaves-recheck trade unknown ne e =
      let other : unknown.id ≢ j = λ h. ne (sym e ∙ h) in
      Leaves-bind (row_of j) (attempt (reconcile_trade host client unknown)) _
        (Leaves-attempt (row_of j) _ (Leaves-reconcile_trade unknown other))
        (Leaves-keep_trade unknown)

  Leaves-handle_uncertain_outcome :
      (trade : Trade) (e : BinanceError)
      → trade.id ≢ j
      → Leaves (row_of j) (handle_uncertain_outcome host client trade e)
  unfolding handle_uncertain_outcome
  Leaves-handle_uncertain_outcome trade e ne =
      Leaves-bind (row_of j) _ _ (search leaves_rules) (λ now.
        Leaves-given (row_of j) (Named trade.id) _ _ (search (outcomes, ne))
          (Gives-save host trade.id trade _ refl (Outcome.uncertain e now))
          (λ unknown named. Leaves-recheck trade unknown ne named))

  Leaves-failure_of :
      (c : BinanceErrorClass) (trade : Trade) (e : BinanceError)
      → trade.id ≢ j
      → Leaves (row_of j) (failure_of host c client trade e)
  unfolding finalise_failure
  Leaves-failure_of BinanceErrorClass.uncertain trade e ne =
      search (Leaves-handle_uncertain_outcome, ne)
  Leaves-failure_of _ trade e ne = search (leaves_rules, outcomes, ne)

  Leaves-record_outcome :
      (trade : Trade) (r : Result BinanceOrderResult)
      → trade.id ≢ j
      → Leaves (row_of j) (record_outcome host client trade r)
  unfolding record_outcome finalise_success
  Leaves-record_outcome trade (ok r) ne = search (leaves_rules, outcomes, ne)
  Leaves-record_outcome trade (err (Exc.binance e)) ne = search (Leaves-failure_of, ne)
  Leaves-record_outcome trade (err e) ne = search leaves_rules

  pub Leaves-submit_to_binance :
      (trade : Trade) → trade.id ≢ j → Leaves (row_of j) (submit_to_binance host client trade)
  unfolding submit_to_binance
  Leaves-submit_to_binance trade ne = search (leaves_rules, Leaves-place, Leaves-record_outcome, ne)
