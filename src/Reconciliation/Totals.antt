-- ===== src/Reconciliation/Totals.antt =====
-- The counts of a reconciliation run.
use crypto_auto_trader.Base.{ℕ, suc, ◌+◌, ◌≡◌, refl, List, [], ◌∷◌, arith, length, sym, ap, ◌∙◌}
use crypto_auto_trader.Models.{Trade, TradeStatus}
use crypto_auto_trader.Errors.{Result, ok}
use crypto_auto_trader.Host.{Host}
use crypto_auto_trader.World.{World}
use crypto_auto_trader.World.Runs.{bind_inv, bind-gets, run-pure}
use crypto_auto_trader.BinanceClient.{Client}
use crypto_auto_trader.Reconciliation.{
  Summary, tally, find_reconcilable_trades, reconcile_all, reconcile_pending_trades,
}

counts-tally :
    (before after : TradeStatus) (s : Summary) (n : ℕ)
    → s.checked + suc n ≡ (tally before after s).checked + n
counts-tally before after s n = ground arith

balance-tally :
    (before after : TradeStatus) (s : Summary)
    → s.checked ≡ s.changed + s.unchanged
    → (tally before after s).checked
      ≡ (tally before after s).changed + (tally before after s).unchanged
balance-tally before after s h = ground arith

module _ (host : Host) (client : Client) where
  reconcile_all_totals :
      (trades : List Trade) (s total : Summary) (w w' : World)
      → s.checked ≡ s.changed + s.unchanged
      → reconcile_all host client trades s w ≡ (ok total, w')
      → (total.checked ≡ s.checked + length trades)
        × (total.checked ≡ total.changed + total.unchanged)
  unfolding reconcile_all
  reconcile_all_totals [] s total w w' b h =
      ground (arith, ap (λ (x : Result Summary × World). x.0) (sym (run-pure s w) ∙ h))
  reconcile_all_totals (trade ∷ rest) s total w w' b h =
      let (after, v, _, h') = bind_inv _ _ w w' total h in
      let next = tally trade.status after.status s in
      omega (
        arith,
        counts-tally trade.status after.status s (length rest),
        reconcile_all_totals rest next total v w' (balance-tally trade.status after.status s b) h',
      )

-- A run that completes counts every trade that it took up, and each of them once: as changed or as
-- unchanged.
reconcile_pending_trades_totals :
    (host : Host) (client : Client) (older_than_seconds limit : ℕ) (total : Summary) (w w' : World)
    → reconcile_pending_trades host client older_than_seconds limit w ≡ (ok total, w')
    → (total.checked ≡ length (find_reconcilable_trades older_than_seconds limit w))
      × (total.checked ≡ total.changed + total.unchanged)
unfolding reconcile_pending_trades
reconcile_pending_trades_totals host client older_than_seconds limit total w w' h = omega (
  arith,
  reconcile_all_totals host client (find_reconcilable_trades older_than_seconds limit w)
      (record { checked = 0; changed = 0; unchanged = 0 }) total w w' refl
      (sym (bind-gets _ _ w) ∙ h),
)
