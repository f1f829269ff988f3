-- ===== src/Models/Status.antt =====
-- The two status sets of app/db/models.py, side by side.
use crypto_auto_trader.Base.{◌≡◌, ◌↔◌, Bool, not, arith}
use crypto_auto_trader.Models.{
  TradeStatus, status_eq, status_in, terminal_statuses, reconcilable_statuses,
}

pub status_eq_iff : (a b : TradeStatus) → (status_eq a b ≡ Bool.true) ↔ (a ≡ b)
status_eq_iff a b = ground arith

-- A status is one that a reconciliation run re-checks exactly when it is not terminal.
reconcilable_iff_not_terminal :
    (s : TradeStatus) → status_in s reconcilable_statuses ≡ not (status_in s terminal_statuses)
reconcilable_iff_not_terminal s = ground arith
