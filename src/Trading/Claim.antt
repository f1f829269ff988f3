-- ===== src/Trading/Claim.antt =====
-- The claim of a trade: who wins it.
use crypto_auto_trader.Base.{
  ℕ, ◌+◌, ◌≡◌, refl, true, false, none, List, [], ◌∷◌, arith, ◌==◌, if◌then◌else◌,
}
use crypto_auto_trader.Models.{Trade}
use crypto_auto_trader.Errors.{Exc, ok, err}
use crypto_auto_trader.Host.{Host}
use crypto_auto_trader.Store.{find, has_id, count_where, update_where}
use crypto_auto_trader.World.{World}
use crypto_auto_trader.World.Runs.{bind_ok, bind_err, bind-gets, run-gets, commit_ok, commit_err}
use crypto_auto_trader.Outcomes.{claim_changes}
use crypto_auto_trader.Trading.{claimable, claim_update, claim_for_submission}

module _ (host : Host) (k : ℕ) (w : World) where
  -- The commit of the claim failed.
  pub claim_err :
      host.commit_fails w.commits ≡ true
      → claim_for_submission host k w
        ≡ (err Exc.sqlalchemy_error, record w { commits = w.commits + 1 })
  unfolding claim_for_submission
  claim_err down =
      rw (bind-gets, bind-gets, bind_err, commit_err host (claim_update k w.clock) w down)

  -- The claim went through: its row comes back if it changed one.
  pub claim_ok :
      host.commit_fails w.commits ≡ false
      → claim_for_submission host k w ≡ (
        ok (
            if count_where (claimable k) w.db.trades == 1
            then find (has_id k) (claim_update k w.clock w.db).trades
            else none),
        record w { db = claim_update k w.clock w.db; commits = w.commits + 1 },
      )
  unfolding claim_for_submission
  claim_ok up =
      rw (bind-gets, bind-gets, bind_ok, commit_ok host (claim_update k w.clock) w up, run-gets)

-- After a claim no row can be claimed under the id.
claimable-update :
    (k now : ℕ) (ts : List Trade)
    → count_where (claimable k) (update_where (claimable k) (claim_changes now) ts) ≡ 0
unfolding claim_changes
claimable-update k now [] = refl
claimable-update k now (t ∷ ts) = ground (arith, claimable-update k now ts)

-- A trade is won once: after a claim whose commit went through, won or lost, a second claim of the
-- same trade, at whatever time and with nothing but time between the two, hands back no trade if its
-- commit goes through.
pub claim_exclusive :
    (host : Host) (k later : ℕ) (w : World)
    → host.commit_fails w.commits ≡ false
    → host.commit_fails (w.commits + 1) ≡ false
    → let w' = (claim_for_submission host k w).1 in
      (claim_for_submission host k (record w' { clock = later })).0 ≡ ok none
unfolding claim_update
claim_exclusive host k later w up up' = rw (claim_ok host k w up) (
    rw
      (claim_ok host k
        (record w { db = claim_update k w.clock w.db; commits = w.commits + 1; clock = later }) up')
      (rw claimable-update))
