-- ===== src/Outcomes/Keeps.antt =====
-- What an outcome never writes: the keys of a trade, its owner, its order, and the mark of the claim.
use crypto_auto_trader.Base.{ℕ, ◌≡◌, refl}
use crypto_auto_trader.Text.{Text}
use crypto_auto_trader.Models.{OrderSide, TradeStatus, Trade}
use crypto_auto_trader.Numbers.{Decimal}
use crypto_auto_trader.Errors.{BinanceError}
use crypto_auto_trader.Host.{Host}
use crypto_auto_trader.Binance.{BinanceOrderResult}
use crypto_auto_trader.Outcomes.{
  success_changes, failure_changes, uncertain_changes, not_found_changes, found_changes,
  claim_changes,
}

-- The columns that identify a trade.
abbrev pub key : Trade → ℕ × ℕ × Text × Text
key t = (t.id, t.user_id, t.signal_id, t.client_order_id)

-- The columns that say what was ordered.
abbrev pub order : Trade → Text × OrderSide × Text × Decimal
order t = (t.symbol, t.side, t.order_type, t.quantity)

abbrev pub KeepsKey : (Trade → Trade) → Type 0
KeepsKey f = (t : Trade) → key (f t) ≡ key t

abbrev pub KeepsOrder : (Trade → Trade) → Type 0
KeepsOrder f = (t : Trade) → order (f t) ≡ order t

abbrev pub KeepsClaim : (Trade → Trade) → Type 0
KeepsClaim f = (t : Trade) → (f t).submitted_at ≡ t.submitted_at

-- What an outcome may be: the assignments of `_finalise_success`, `_finalise_failure`,
-- `_handle_uncertain_outcome` and `reconcile_trade`.
pub data Outcome (host : Host) : (Trade → Trade) → Type 0 where
  success : (r : BinanceOrderResult) (now : ℕ) → Outcome host (success_changes r now)
  failure :
      (s : TradeStatus) (code message : Text) (now : ℕ)
      → Outcome host (failure_changes s code message now)
  uncertain : (e : BinanceError) (now : ℕ) → Outcome host (uncertain_changes host e now)
  not_found : (now : ℕ) → Outcome host (not_found_changes now)
  found : (r : BinanceOrderResult) (now : ℕ) → Outcome host (found_changes r now)

pub Outcome-KeepsKey : (host : Host) {f : Trade → Trade} → Outcome host f → KeepsKey f
unfolding success_changes failure_changes uncertain_changes not_found_changes found_changes
Outcome-KeepsKey host (success r now) t = refl
Outcome-KeepsKey host (failure s code message now) t = refl
Outcome-KeepsKey host (uncertain e now) t = refl
Outcome-KeepsKey host (not_found now) t = refl
Outcome-KeepsKey host (found r now) t = refl

pub Outcome-KeepsClaim : (host : Host) {f : Trade → Trade} → Outcome host f → KeepsClaim f
unfolding success_changes failure_changes uncertain_changes not_found_changes found_changes
Outcome-KeepsClaim host (success r now) t = refl
Outcome-KeepsClaim host (failure s code message now) t = refl
Outcome-KeepsClaim host (uncertain e now) t = refl
Outcome-KeepsClaim host (not_found now) t = refl
Outcome-KeepsClaim host (found r now) t = refl

pub claim_changes-KeepsKey : (now : ℕ) → KeepsKey (claim_changes now)
unfolding claim_changes
claim_changes-KeepsKey now t = refl
