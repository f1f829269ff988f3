-- ===== src/Executor/System/Once.antt =====
-- The steps keep the invariant, and what follows for the orders sent.
use crypto_auto_trader.Base.{
  ℕ, ◌+◌, ◌≤◌, ◌≡◌, inl, inr, refl, Option, none, some, List, [], ◌∷◌, ◌++◌, arith, ◌==◌,
  if◌then◌else◌, ap,
}
use crypto_auto_trader.Text.{Text}
use crypto_auto_trader.Models.{User, Trade}
use crypto_auto_trader.Errors.{ok}
use crypto_auto_trader.Host.{Host}
use crypto_auto_trader.Store.{has_id, count_where, find, insert_trade, insert_user, update_trade}
use crypto_auto_trader.Store.Laws.{insert_trade_inv, insert_user_inv}
use crypto_auto_trader.World.{commit, commit_insert}
use crypto_auto_trader.Payload.{Payload}
use crypto_auto_trader.BinanceClient.{Client, get_order}
use crypto_auto_trader.Outcomes.Keeps.{
  Outcome, Outcome-KeepsKey, Outcome-KeepsClaim, claim_changes-KeepsKey,
}
use crypto_auto_trader.Outcomes.{claim_changes}
use crypto_auto_trader.Trading.{
  pending_trade, create_pending_trade, claimable, claim_update, claim_for_submission, place_order,
}
use crypto_auto_trader.Executor.System.{System, Step, Reach, claimed_job}
use crypto_auto_trader.Executor.System.Effects.{
  commit_cases, requests-commit, commit_insert_cases, world-create_pending_trade, claim_cases,
  requests-claim_for_submission, db-place_order, orders_for-place_order, orders_for-get_order,
}
use crypto_auto_trader.World.Places.{requests-commit_insert}
use crypto_auto_trader.BinanceClient.Calls.{db-get_order}
use crypto_auto_trader.Executor.System.Counts.{
  rows_for, claims_for, orders_for, claims_for-le-rows_for, rows_for-remove, claims_for-append,
  rows_for-update, claims_for-update, ids-update, fresh-update, claims_for-claim,
  claims_for-le-claim,
}
use crypto_auto_trader.Executor.System.Safe.{IsKeyed, IsSafe, insert_trade-IsKeyed}

module _ (host : Host) (s : System) (h : IsSafe s) where
  -- A refused INSERT, or one that adds a trade which nobody has claimed.
  signal-IsSafe :
      (payload : Payload) (owner_id : ℕ)
      → IsSafe (record s { world = (create_pending_trade host payload owner_id s.world).1 })
  unfolding pending_trade
  signal-IsSafe payload owner_id =
      let t = pending_trade host payload owner_id s.world.clock in
      rw world-create_pending_trade (elim (commit_insert_cases host (insert_trade t) s.world) [
        | inl same ↦ record {
          keyed = rw same h.keyed;
          once = λ c. rw (same, requests-commit_insert) (h.once c);
        }
        | inr (row, db, e, now_db) ↦
            let (named, rows, _, _, _, _) = insert_trade_inv t row s.world.db db e in
            record {
              keyed = rw now_db (insert_trade-IsKeyed t row s.world.db db e h.keyed);
              once = λ c.
                  rw (now_db, rows, requests-commit_insert, claims_for-append)
                    (ground (arith, h.once c, named));
            }
      ])

  register-IsSafe :
      (u : User) → IsSafe (record s { world = (commit_insert host (insert_user u) s.world).1 })
  register-IsSafe u = elim (commit_insert_cases host (insert_user u) s.world) [
    | inl same ↦ record {
      keyed = rw same h.keyed;
      once = λ c. rw (same, requests-commit_insert) (h.once c);
    }
    | inr (row, db, e, now_db) ↦
        let (_, _, trades, next, _) = insert_user_inv u row s.world.db db e in
        record {
          keyed = rw now_db (record {
            unique = λ c. rw trades (h.keyed.unique c);
            ids = λ k. rw trades (h.keyed.ids k);
            fresh = rw (trades, next) h.keyed.fresh;
          });
          once = λ c. rw (now_db, trades, requests-commit_insert) (h.once c);
        }
  ]

  -- A claim keeps the keys, and hands back a trade only where it adds a claim for it.
  claim_update-IsKeyed : (k now : ℕ) → IsKeyed (claim_update k now s.world.db)
  unfolding claim_update
  claim_update-IsKeyed k now = record {
    unique = λ c.
        rw (rows_for-update (claimable k) (claim_changes now) (claim_changes-KeepsKey now))
          (h.keyed.unique c);
    ids = λ j.
        rw (ids-update (claimable k) (claim_changes now) (claim_changes-KeepsKey now))
          (h.keyed.ids j);
    fresh =
        fresh-update (claimable k) (claim_changes now) (claim_changes-KeepsKey now) _ _
          h.keyed.fresh;
  }

  claimed_job-le :
      (k now : ℕ) (found : Option Trade) (c : Text)
      → found ≡ (
          if count_where (claimable k) s.world.db.trades == 1
          then find (has_id k) (claim_update k now s.world.db).trades
          else none)
      → orders_for c s.world.requests + rows_for c (claimed_job (ok found) s.jobs)
        ≤ claims_for c (claim_update k now s.world.db).trades
  unfolding claim_update
  claimed_job-le k now none c e =
      omega (arith, h.once c, claims_for-le-claim k now c s.world.db.trades)
  claimed_job-le k now (some t) c e =
      ground (arith, h.once c, h.keyed.ids k, claims_for-claim k now c s.world.db.trades t)

  claim-IsSafe :
      (k : ℕ)
      → IsSafe (record {
        world = (claim_for_submission host k s.world).1;
        jobs = claimed_job (claim_for_submission host k s.world).0 s.jobs;
      })
  claim-IsSafe k = elim (claim_cases host k s.world) [
    | inl (same, raised) ↦ record {
      keyed = rw same h.keyed;
      once = λ c. rw (same, raised, requests-claim_for_submission) (h.once c);
    }
    | inr (marked, result) ↦ record {
      keyed = rw marked (claim_update-IsKeyed k s.world.clock);
      once = λ c.
          rw (marked, result, requests-claim_for_submission)
            (claimed_job-le k s.world.clock _ c refl);
    }
  ]

  write-IsSafe :
      (k : ℕ) (f : Trade → Trade)
      → Outcome host f
      → IsSafe (record s { world = (commit host (update_trade k f) s.world).1 })
  unfolding update_trade
  write-IsSafe k f o =
      let keeps = Outcome-KeepsKey host o in
      elim (commit_cases host (update_trade k f) s.world) [
        | inl same ↦ record {
          keyed = rw same h.keyed;
          once = λ c. rw (same, requests-commit) (h.once c);
        }
        | inr written ↦ record {
          keyed = rw written (record {
            unique = λ c. rw (rows_for-update (has_id k) f keeps) (h.keyed.unique c);
            ids = λ j. rw (ids-update (has_id k) f keeps) (h.keyed.ids j);
            fresh = fresh-update _ _ keeps _ _ h.keyed.fresh;
          });
          once = λ c.
              rw
                (
                  written,
                  requests-commit,
                  claims_for-update (has_id k) f keeps c _ (Outcome-KeepsClaim host o),
                )
                (h.once c);
        }
      ]

  module _ (client : Client) where
    send_order-IsSafe :
        (before after : List Trade) (t : Trade)
        → s.jobs ≡ before ++ t ∷ after
        → IsSafe (record { world = (place_order host client t s.world).1; jobs = before ++ after })
    send_order-IsSafe before after t e = record {
      keyed = rw db-place_order h.keyed;
      once = λ c. rw db-place_order (
          omega (
            arith,
            h.once c,
            orders_for-place_order host client t c s.world,
            ap (rows_for c) e,
            rows_for-remove c before after t,
          ));
    }

    query-IsSafe :
        (symbol client_order_id : Text)
        → IsSafe (record s { world = (get_order host client symbol client_order_id s.world).1 })
    query-IsSafe symbol client_order_id = record {
      keyed = rw db-get_order h.keyed;
      once = λ c. rw (db-get_order, orders_for-get_order) (h.once c);
    }

  cancel-IsSafe :
      (before after : List Trade) (t : Trade)
      → s.jobs ≡ before ++ t ∷ after
      → IsSafe (record s { jobs = before ++ after })
  cancel-IsSafe before after t e = record {
    keyed = h.keyed;
    once = λ c. omega (arith, h.once c, ap (rows_for c) e, rows_for-remove c before after t);
  }

Step-IsSafe :
    (host : Host) (client : Client) {s t : System} → Step host client s t → IsSafe s → IsSafe t
Step-IsSafe host client (Step.signal payload owner_id) h = signal-IsSafe host _ h payload owner_id
Step-IsSafe host client (Step.register u) h = register-IsSafe host _ h u
Step-IsSafe host client (Step.claim k) h = claim-IsSafe host _ h k
Step-IsSafe host client (Step.send_order before after t e) h =
    send_order-IsSafe host _ h client before after t e
Step-IsSafe host client (Step.write k f o) h = write-IsSafe host _ h k f o
Step-IsSafe host client (Step.query symbol id) h = query-IsSafe host _ h client symbol id
Step-IsSafe host client (Step.cancel before after t e) h = cancel-IsSafe host _ h before after t e
Step-IsSafe host client (Step.other queue clock owner request_id) h = record {
  keyed = h.keyed;
  once = h.once;
}
Step-IsSafe host client Step.crash h = record {
  keyed = h.keyed;
  once = λ c. omega (arith, h.once c);
}

pub Reach-IsSafe :
    (host : Host) (client : Client) {s t : System} → Reach host client s t → IsSafe s → IsSafe t
Reach-IsSafe host client Reach.here h = h
Reach-IsSafe host client (Reach.next r st) h =
    Step-IsSafe host client st (Reach-IsSafe host client r h)

-- Before the first request: no order was sent, and no task holds a trade.
pub record IsStart (s : System) : Type 0 where
  pub keyed : IsKeyed s.world.db
  pub no_requests : s.world.requests ≡ []
  pub no_jobs : s.jobs ≡ []

pub IsSafe-of_start : (s : System) → IsStart s → IsSafe s
IsSafe-of_start s start = record {
  keyed = start.keyed;
  once = λ d. rw (start.no_requests, start.no_jobs) (omega arith);
}

-- From a start with well-keyed tables, however the steps of webhooks, workers, reconciliation runs
-- and crashes interleave, whatever the exchange answers and whichever commits fail: of the requests
-- that were sent, at most one places an order with a given client order id.
pub ordered_at_most_once :
    (host : Host) (client : Client) (s t : System) (c : Text)
    → IsStart s
    → Reach host client s t
    → orders_for c t.world.requests ≤ 1
ordered_at_most_once host client s t c start r =
    let safe = Reach-IsSafe host client r (IsSafe-of_start s start) in
    omega (arith, safe.once c, safe.keyed.unique c, claims_for-le-rows_for c t.world.db.trades)
