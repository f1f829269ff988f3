-- ===== src/Trading/Returned.antt =====
-- The trade that a call hands back is the one that it was about.
use crypto_auto_trader.Base.{
  ℕ, ◌≡◌, refl, Bool, Option, none, some, List, [], ◌∷◌, arith, ◌==◌, if◌then◌else◌, Bool-cases,
  inl, inr,
}
use crypto_auto_trader.Text.{Text}
use crypto_auto_trader.Models.{Trade, TradeStatus}
use crypto_auto_trader.Errors.{BinanceErrorClass, BinanceError, Exc, Result, ok, err}
use crypto_auto_trader.Host.{Host}
use crypto_auto_trader.Store.{find, has_id}
use crypto_auto_trader.World.{World, pure, ◌>>=◌, ◌>>◌}
use crypto_auto_trader.World.Gives.{
  OrError, Gives, Gives-pure, Gives-raise, Gives-gets, Gives-attempt, Gives-if, Gives-bind,
  Gives-then,
}
use crypto_auto_trader.Binance.{BinanceOrderResult}
use crypto_auto_trader.BinanceClient.{Client}
use crypto_auto_trader.Outcomes.Keeps.{Outcome, Outcome-KeepsKey}
use crypto_auto_trader.Reconciliation.{save, record_answer, reconcile_trade}
use crypto_auto_trader.Trading.{
  keep_trade, handle_uncertain_outcome, finalise_success, finalise_failure, failure_of,
  record_outcome, submit_to_binance, claim_for_submission, submit_claimed, submit,
}

abbrev pub Named : ℕ → Trade → Type 0
Named k t = t.id ≡ k

abbrev pub NamedIfAny : ℕ → Option Trade → Type 0
NamedIfAny k none = Unit
NamedIfAny k (some t) = t.id ≡ k

pub find-NamedIfAny : (k : ℕ) (ts : List Trade) → NamedIfAny k (find (has_id k) ts)
find-NamedIfAny k [] = tt
find-NamedIfAny k (t ∷ ts) = ground (arith, find-NamedIfAny k ts)

module _ (host : Host) (k : ℕ) where
  pub Gives-save :
      (t : Trade) (f : Trade → Trade) → t.id ≡ k → Outcome host f → Gives (Named k) (save host t f)
  unfolding save
  Gives-save t f e o =
      Gives-then (Named k) _ _
        (λ _. Gives-pure (Named k) (f t) (ground (arith, Outcome-KeepsKey host o t, e)))

  Gives-record_answer :
      (t : Trade) (r : Result (Option BinanceOrderResult))
      → t.id ≡ k
      → Gives (Named k) (record_answer host t r)
  unfolding record_answer
  Gives-record_answer t (ok none) e =
      Gives-then (Named k) _ _ (λ now. Gives-save t _ e (Outcome.not_found now))
  Gives-record_answer t (ok (some result)) e =
      Gives-then (Named k) _ _ (λ now. Gives-save t _ e (Outcome.found result now))
  Gives-record_answer t (err (Exc.binance x)) e = Gives-pure (Named k) t e
  Gives-record_answer t (err x) e = Gives-raise (Named k) x

  Gives-reconcile_trade :
      (client : Client) (t : Trade) → t.id ≡ k → Gives (Named k) (reconcile_trade host client t)
  unfolding reconcile_trade
  Gives-reconcile_trade client t e =
      Gives-if (Named k) _ _ _ (Gives-pure (Named k) t e)
        (Gives-then (Named k) _ _ (λ answer. Gives-record_answer t answer e))

  Gives-keep_trade :
      (t : Trade) (r : Result Trade)
      → t.id ≡ k
      → OrError (Named k) r
      → Gives (Named k) (keep_trade host t r)
  Gives-keep_trade t (ok u) e p = Gives-pure (Named k) u p
  Gives-keep_trade t (err x) e p = Gives-pure (Named k) t e

  Gives-handle_uncertain_outcome :
      (client : Client) (t : Trade) (x : BinanceError)
      → t.id ≡ k
      → Gives (Named k) (handle_uncertain_outcome host client t x)
  unfolding handle_uncertain_outcome
  Gives-handle_uncertain_outcome client t x e = Gives-then (Named k) _ _ (λ now.
      Gives-bind (Named k) (Named k) _ _ (Gives-save t _ e (Outcome.uncertain x now)) (λ unknown e'.
        Gives-bind (OrError (Named k)) (Named k) _ _
          (Gives-attempt (Named k) _ (Gives-reconcile_trade client unknown e'))
          (λ r p. Gives-keep_trade unknown r e' p)))

  Gives-finalise_success :
      (t : Trade) (r : BinanceOrderResult) → t.id ≡ k → Gives (Named k) (finalise_success host t r)
  unfolding finalise_success
  Gives-finalise_success t r e =
      Gives-then (Named k) _ _ (λ now. Gives-save t _ e (Outcome.success r now))

  Gives-finalise_failure :
      (t : Trade) (s : TradeStatus) (code message : Text)
      → t.id ≡ k
      → Gives (Named k) (finalise_failure host t s code message)
  unfolding finalise_failure
  Gives-finalise_failure t s code message e =
      Gives-then (Named k) _ _ (λ now. Gives-save t _ e (Outcome.failure s code message now))

  Gives-failure_of :
      (c : BinanceErrorClass) (client : Client) (t : Trade) (x : BinanceError)
      → t.id ≡ k
      → Gives (Named k) (failure_of host c client t x)
  Gives-failure_of BinanceErrorClass.uncertain client t x e =
      Gives-handle_uncertain_outcome client t x e
  Gives-failure_of _ client t x e = Gives-finalise_failure t _ _ _ e

  Gives-record_outcome :
      (client : Client) (t : Trade) (r : Result BinanceOrderResult)
      → t.id ≡ k
      → Gives (Named k) (record_outcome host client t r)
  unfolding record_outcome
  Gives-record_outcome client t (ok r) e = Gives-finalise_success t r e
  Gives-record_outcome client t (err (Exc.binance x)) e = Gives-failure_of x.class client t x e
  Gives-record_outcome client t (err x) e = Gives-raise (Named k) x

  pub Gives-claim_for_submission : Gives (NamedIfAny k) (claim_for_submission host k)
  unfolding claim_for_submission
  Gives-claim_for_submission = Gives-then (NamedIfAny k) _ _ (λ now.
      Gives-then (NamedIfAny k) _ _ (λ rowcount.
        Gives-then (NamedIfAny k) _ _
          (λ _. Gives-gets (NamedIfAny k) _ (λ w. claimed_row rowcount w))))
    where
      claimed_row :
          (rowcount : ℕ) (w : World)
          → NamedIfAny k (if rowcount == 1 then find (has_id k) w.db.trades else none)
      claimed_row rowcount w = elim (Bool-cases (rowcount == 1)) [
        | inl e ↦ rw e (find-NamedIfAny k w.db.trades)
        | inr e ↦ rw e tt
      ]

  pub Gives-submit_claimed :
      (client : Client) (t : Trade) (o : Option Trade)
      → t.id ≡ k
      → NamedIfAny k o
      → Gives (Named k) (submit_claimed host client t o)
  unfolding submit_to_binance
  Gives-submit_claimed client t none e p = Gives-pure (Named k) t e
  Gives-submit_claimed client t (some u) e p =
      Gives-then (Named k) _ _ (λ r. Gives-record_outcome client u r p)

-- The end of `process_signal`, whichever way the order goes out.
pub submitted-Named :
    (host : Host) (client : Client) (trade : Trade) (async : Bool)
    → Gives (Named trade.id) (
        if async then (do submit host trade.id; pure trade) else (do
          claimed ← claim_for_submission host trade.id
          submit_claimed host client trade claimed))
submitted-Named host client trade async =
    let k = trade.id in
    Gives-if (Named k) async _ _ (Gives-then (Named k) _ _ (λ _. Gives-pure (Named k) trade refl)) (
      Gives-bind (NamedIfAny k) (Named k) _ _ (Gives-claim_for_submission host k)
        (λ o p. Gives-submit_claimed host k client trade o refl p))
