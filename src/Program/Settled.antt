-- ===== src/Program/Settled.antt =====
-- The row of a settled trade among the others: no claim, outcome or reconciliation is about it.
use crypto_auto_trader.Base.{
  ℕ, ◌≤◌, ◌≡◌, ◌≢◌, ◌⊎◌, inl, inr, refl, sym, ◌∙◌, ap, Bool, true, false, some, List, [], ◌∷◌,
  arith, All, Bool-cases, select,
}
use crypto_auto_trader.Models.{Trade, is_terminal}
use crypto_auto_trader.Store.{find, has_id, count_where, update_where}
use crypto_auto_trader.Outcomes.{claim_changes}
use crypto_auto_trader.Reconciliation.{is_reconcilable}
use crypto_auto_trader.Trading.{claimable}

pub found_head :
    (p : Trade → Bool) (t row : Trade) (ts : List Trade)
    → p t ≡ true
    → find p (t ∷ ts) ≡ some row
    → t ≡ row
found_head p t row ts e found = ground (arith, found, e)

not_claimable : (k : ℕ) (t : Trade) → is_terminal t ≡ true → claimable k t ≡ false
unfolding is_terminal
not_claimable k t h = ground (arith, h)

pub not_reconcilable :
    (cutoff : ℕ) (t : Trade) → is_terminal t ≡ true → is_reconcilable cutoff t ≡ false
unfolding is_terminal
not_reconcilable cutoff t h = ground (arith, h)

module _ (j : ℕ) (row : Trade) (settled : is_terminal row ≡ true) where
  no_claims : (ts : List Trade) → count_where (has_id j) ts ≡ 0 → count_where (claimable j) ts ≡ 0
  no_claims [] h = refl
  no_claims (t ∷ ts) h = ground (arith, no_claims ts, h)

  -- Nobody claims it.
  pub claims_of_settled :
      (ts : List Trade)
      → count_where (has_id j) ts ≤ 1
      → find (has_id j) ts ≡ some row
      → count_where (claimable j) ts ≡ 0
  claims_of_settled [] single found = refl
  claims_of_settled (t ∷ ts) single found = elim (Bool-cases (has_id j t)) [
    | inl e ↦
        let same = found_head (has_id j) t row ts e found in
        ground (arith, no_claims ts, single, e, ap (claimable j) same ∙ not_claimable j row settled)
    | inr e ↦ ground (arith, claims_of_settled ts, single, found, e)
  ]

  -- The claim of whatever trade leaves it alone.
  pub find-claim :
      (k now : ℕ) (ts : List Trade)
      → find (has_id j) ts ≡ some row
      → find (has_id j) (update_where (claimable k) (claim_changes now) ts) ≡ some row
  unfolding claim_changes
  find-claim k now [] found = cc
  find-claim k now (t ∷ ts) found = elim (Bool-cases (has_id j t)) [
    | inl e ↦
        let same = found_head (has_id j) t row ts e found in
        rw (ap (claimable k) same ∙ not_claimable k row settled, e) (ap some same)
    | inr e ↦ ground (arith, find-claim k now ts, found, e)
  ]

  none_left :
      (p : Trade → Bool) (ts : List Trade)
      → count_where (has_id j) ts ≡ 0
      → All (λ (t : Trade). t.id ≢ j) (select p ts)
  none_left p [] h = tt
  none_left p (t ∷ ts) h = ground (arith, none_left p ts, h)

  -- It is in no selection that excludes it.
  pub All-select :
      (p : Trade → Bool) (ts : List Trade)
      → p row ≡ false
      → count_where (has_id j) ts ≤ 1
      → find (has_id j) ts ≡ some row
      → All (λ (t : Trade). t.id ≢ j) (select p ts)
  All-select p [] out single found = tt
  All-select p (t ∷ ts) out single found = elim (Bool-cases (has_id j t)) [
    | inl e ↦
        let same = found_head (has_id j) t row ts e found in
        rw (ap p same ∙ out) (none_left p ts (ground (arith, single, e)))
    | inr e ↦ ground (arith, All-select p ts out, single, found, e)
  ]

  none_found :
      (p : Trade → Bool) (ts : List Trade) (t : Trade)
      → count_where (has_id j) ts ≡ 0
      → find p ts ≡ some t
      → t.id ≢ j
  none_found p [] t h e = cc
  none_found p (x ∷ ts) t h e = elim (Bool-cases (p x)) [
    | inl here ↦ let same = found_head p x t ts here e in rw (← same) (ground (arith, h))
    | inr later ↦ none_found p ts t (ground (arith, h)) (ground (arith, e, later))
  ]

  -- A query by any condition finds it or another trade.
  pub self_or_other :
      (p : Trade → Bool) (ts : List Trade) (t : Trade)
      → count_where (has_id j) ts ≤ 1
      → find (has_id j) ts ≡ some row
      → find p ts ≡ some t
      → (t ≡ row) ⊎ (t.id ≢ j)
  self_or_other p [] t single found e = cc
  self_or_other p (x ∷ ts) t single found e = elim (Bool-cases (p x)) [
    | inl here ↦
        let eq = found_head p x t ts here e in
        elim (Bool-cases (has_id j x)) [
          | inl same ↦ inl (sym eq ∙ found_head (has_id j) x row ts same found)
          | inr other ↦ inr (rw (← eq) (ground (arith, other)))
        ]
    | inr later ↦ elim (Bool-cases (has_id j x)) [
      | inl same ↦ inr (none_found p ts t (ground (arith, single, same)) (ground (arith, e, later)))
      | inr other ↦
          self_or_other p ts t (ground (arith, single, other)) (ground (arith, found, other))
            (ground (arith, e, later))
    ]
  ]
