-- ===== src/Program/Kept.antt =====
-- What an INSERT, a claim and the order that follows it do to a settled row: nothing.
use crypto_auto_trader.Base.{
  ℕ, ◌≡◌, ◌≢◌, inl, inr, refl, sym, ◌∙◌, Bool, true, false, Option, none, some, List, [], ◌∷◌, ◌++◌,
  arith, if◌then◌else◌,
}
use native.Mathlib.Decide.{ℕ_discrete}
use crypto_auto_trader.Models.{Trade, is_terminal}
use crypto_auto_trader.Errors.{ok}
use crypto_auto_trader.Host.{Host}
use crypto_auto_trader.Store.{find, has_id, insert_trade}
use crypto_auto_trader.Store.Laws.{insert_trade_inv}
use crypto_auto_trader.World.{World, pure, ◌>>=◌, ◌>>◌}
use crypto_auto_trader.World.Runs.{after-bind}
use crypto_auto_trader.World.Leaves.{Leaves, Leaves-pure, Leaves-bind}
use crypto_auto_trader.Payload.{Payload}
use crypto_auto_trader.BinanceClient.{Client}
use crypto_auto_trader.Trading.{
  pending_trade, create_pending_trade, claim_update, claim_for_submission, submit_claimed, submit,
}
use crypto_auto_trader.Trading.Returned.{NamedIfAny, Gives-claim_for_submission}
use crypto_auto_trader.Executor.{submit_won, execute}
use crypto_auto_trader.Executor.System.Effects.{
  commit_insert_cases, world-create_pending_trade, claim_cases,
}
use crypto_auto_trader.Executor.System.Safe.{IsKeyed, insert_trade-IsKeyed}
use crypto_auto_trader.Program.Rows.{row_of, Leaves-submit_to_binance}
use crypto_auto_trader.Program.Settled.{claims_of_settled, find-claim}

-- The one row with the id is this one.
pub record HasRow (j : ℕ) (row : Trade) (w : World) : Type 0 where
  pub keyed : IsKeyed w.db
  pub found : row_of j w ≡ some row

abbrev OtherIfAny : ℕ → Option Trade → Type 0
OtherIfAny j none = Unit
OtherIfAny j (some t) = t.id ≢ j

find-append :
    (j : ℕ) (row t : Trade) (ts : List Trade)
    → find (has_id j) ts ≡ some row
    → find (has_id j) (ts ++ t ∷ []) ≡ some row
find-append j row t [] h = cc
find-append j row t (x ∷ ts) h = ground (arith, find-append j row t ts, h)

other_of_named : (j k : ℕ) (o : Option Trade) → k ≢ j → NamedIfAny k o → OtherIfAny j o
other_of_named j k none ne named = tt
other_of_named j k (some t) ne named = λ e. ne (sym named ∙ e)

module _ (host : Host) (client : Client) (j : ℕ) (row : Trade)
    (settled : is_terminal row ≡ true) where
  Leaves-submit : (k : ℕ) → Leaves (row_of j) (submit host k)
  unfolding submit
  Leaves-submit k = record { same = λ w. ground arith }

  pub HasRow-create :
      (payload : Payload) (owner_id : ℕ) (w : World)
      → HasRow j row w
      → HasRow j row (create_pending_trade host payload owner_id w).1
  HasRow-create payload owner_id w h =
      let t = pending_trade host payload owner_id w.clock in
      rw world-create_pending_trade (elim (commit_insert_cases host (insert_trade t) w) [
        | inl same ↦ record { keyed = rw same h.keyed; found = rw same h.found }
        | inr (new, db, e, now_db) ↦
            let (_, rows, _, _, _, _) = insert_trade_inv t new w.db db e in
            record {
              keyed = rw now_db (insert_trade-IsKeyed t new w.db db e h.keyed);
              found = rw (now_db, rows) (find-append j row new w.db.trades h.found);
            }
      ])

  module _ (w : World) (h : HasRow j row w) where
    row-claim : (k : ℕ) → row_of j (claim_for_submission host k w).1 ≡ some row
    unfolding claim_update
    row-claim k = elim (claim_cases host k w) [
      | inl (same, _) ↦ rw same h.found
      | inr (marked, _) ↦ rw marked (find-claim j row settled k w.clock w.db.trades h.found)
    ]

    ok_inv : {o p : Option Trade} → ok o ≡ ok p → o ≡ p
    ok_inv e = cc

    -- No claim hands it over.
    claimed_self : (o : Option Trade) → (claim_for_submission host j w).0 ≡ ok o → OtherIfAny j o
    claimed_self o e = elim (claim_cases host j w) [
      | inl (_, failed) ↦ cc
      | inr (_, claimed) ↦
          let unclaimed = claims_of_settled j row settled w.db.trades (h.keyed.ids j) h.found in
          let lost : o ≡ none = ok_inv (sym e ∙ claimed ∙ rw unclaimed refl) in rw lost tt
    ]

    claimed_other :
        (k : ℕ) (o : Option Trade) → (claim_for_submission host k w).0 ≡ ok o → OtherIfAny j o
    claimed_other k o e = elim (ℕ_discrete k j) [
      | yes same ↦ claimed_self o (rw (← same) e)
      | no other ↦
          other_of_named j k o other (rw e at ((Gives-claim_for_submission host k).holds w))
    ]

    submitted_other :
        (t : Trade) (o : Option Trade) (v : World)
        → OtherIfAny j o
        → row_of j (submit_claimed host client t o v).1 ≡ row_of j v
    unfolding pure
    submitted_other t none v other = refl
    submitted_other t (some u) v other = (Leaves-submit_to_binance host client j u other).same v

    won_other :
        (o : Option Trade) (v : World)
        → OtherIfAny j o
        → row_of j (submit_won host client o v).1 ≡ row_of j v
    won_other none v other = (Leaves-pure (row_of j) tt).same v
    won_other (some u) v other =
        (Leaves-bind (row_of j) _ _ (Leaves-submit_to_binance host client j u other)
            (λ _. Leaves-pure (row_of j) tt)).same
          v

    pub row-execute : (k : ℕ) → row_of j (execute host client k w).1 ≡ some row
    unfolding execute
    row-execute k =
        after-bind (λ v. row_of j v ≡ some row) _ _ w (row-claim k)
          (λ o e. won_other o _ (claimed_other k o e) ∙ row-claim k)

    pub row-submitted :
        (t : Trade) (async : Bool)
        → row_of j
            ((if async then (do submit host t.id; pure t) else (do
              claimed ← claim_for_submission host t.id
              submit_claimed host client t claimed))
              w).1
          ≡ some row
    row-submitted t true =
        (Leaves-bind (row_of j) _ _ (Leaves-submit t.id) (λ _. Leaves-pure (row_of j) t)).same w
        ∙ h.found
    row-submitted t false =
        after-bind (λ v. row_of j v ≡ some row) _ _ w (row-claim t.id)
          (λ o e. submitted_other t o _ (claimed_other t.id o e) ∙ row-claim t.id)
