-- ===== src/Tests/Orders.antt =====
-- Runs of the submission: one claim, one order, and what the reconciliation finds.
use crypto_auto_trader.Base.{◌≤◌, ◌≡◌, refl, none, [], ◌∷◌, ◌++◌, arith}
use crypto_auto_trader.Text.{text}
use crypto_auto_trader.Models.{Trade}
use crypto_auto_trader.Errors.{Exc, ok, err}
use crypto_auto_trader.World.{◌>>=◌, commit, gets}
use crypto_auto_trader.World.Places.{post_count}
use crypto_auto_trader.Outcomes.{claim_changes}
use crypto_auto_trader.Trading.{
  claim_update, claim_for_submission, place_order, process_signal, record_outcome,
}
use crypto_auto_trader.Trading.Claim.{claim_exclusive}
use crypto_auto_trader.Trading.Submission.{
  process_signal_places_at_most_one, record_outcome_never_resends,
}
use crypto_auto_trader.Executor.System.{System, Step, Reach, claimed_job}
use crypto_auto_trader.Executor.System.Counts.{orders_for}
use crypto_auto_trader.Executor.System.Safe.{IsKeyed}
use crypto_auto_trader.Executor.System.Once.{IsStart, ordered_at_most_once}
use crypto_auto_trader.Tests.Data.{host, client, world, pending, payload_of, lost}

abbrev start : System
start = record { world = world; jobs = [] }

-- After a claim of the trade.
abbrev claimed : System
claimed = record {
  world = (claim_for_submission host 1 world).1;
  jobs = claimed_job (claim_for_submission host 1 world).0 [];
}

-- The trade as the claim hands it over.
abbrev won : Trade
won = claim_changes 90000 pending

-- After its order went out.
abbrev sent : System
sent = record { world = (place_order host client won claimed.world).1; jobs = [] }

-- The restart after that, and a second attempt at a claim.
abbrev again : System
again = record {
  world = (claim_for_submission host 1 (record sent.world { queue = []; owner = none })).1;
  jobs =
      claimed_job (claim_for_submission host 1 (record sent.world { queue = []; owner = none })).0
        [];
}

pub world-IsKeyed : IsKeyed world.db
world-IsKeyed = record { unique = λ c. ground arith; ids = λ k. ground arith; fresh = ground arith }

start-IsStart : IsStart start
start-IsStart = record { keyed = world-IsKeyed; no_requests = refl; no_jobs = refl }

jobs-claimed : claimed.jobs ≡ [] ++ won ∷ []
unfolding claim_for_submission ◌>>=◌ commit gets claim_changes claim_update
jobs-claimed = refl

again-Reach : Reach host client start again
again-Reach =
    Reach.next
      (Reach.next
        (Reach.next (Reach.next Reach.here (Step.claim 1)) (Step.send_order [] [] won jobs-claimed))
        Step.crash)
      (Step.claim 1)

ordered_at_most_once_example : orders_for (text "cat-s1") again.world.requests ≤ 1
ordered_at_most_once_example =
    ordered_at_most_once host client start again (text "cat-s1") start-IsStart again-Reach

claim_exclusive_example :
    (claim_for_submission host 1 (record (claim_for_submission host 1 world).1 { clock = 95000 })).0
    ≡ ok none
claim_exclusive_example = claim_exclusive host 1 95000 world refl refl

process_signal_places_at_most_one_example :
    post_count (process_signal host client (payload_of (text "s2")) world).1.requests ≤ 0
process_signal_places_at_most_one_example =
    process_signal_places_at_most_one host client (payload_of (text "s2")) world

record_outcome_never_resends_example :
    post_count (record_outcome host client pending (err (Exc.binance lost)) world).1.requests ≡ 0
record_outcome_never_resends_example =
    record_outcome_never_resends host client pending (err (Exc.binance lost)) world
