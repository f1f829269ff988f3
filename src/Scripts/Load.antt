-- ===== src/Scripts/Load.antt =====
-- scripts/benchmark_webhook.py: `Result`, and what `run_load` counts. Replies come in the order in
-- which their tasks end; latencies are whole ticks of the clock; the figures that are only printed
-- are left out.
use crypto_auto_trader.Base.{
  ℕ, zero, suc, ◌+◌, ◌-◌, ◌*◌, ◌/◌, ◌≤◌, ◌<◌, ◌≡◌, Bool, false, ◌&&◌, List, [], ◌∷◌, ◌++◌, arith,
  ltb, leb, if◌then◌else◌, length, length-append, All,
}
use Prim.Native.Nat.{min}
use crypto_auto_trader.Text.{Text, text}
use crypto_auto_trader.Store.{order_by}
use crypto_auto_trader.Store.Order.{length-order_by, All-order_by}
use crypto_auto_trader.Scripts.{Reply, Counter, bump, numbered}

-- `Result`
pub record LoadResult : Type 0 where
  pub latencies_ms : List ℕ
  pub status_codes : Counter
  pub errors : ℕ

-- `total`
unfoldable pub total : LoadResult → ℕ
total r = length r.latencies_ms + r.errors

abbrev is_success : ℕ → Bool
is_success code = leb 200 code && ltb code 300

abbrev sum_successes : Counter → ℕ
sum_successes [] = 0
sum_successes ((code, n) ∷ counter) = (if is_success code then n else 0) + sum_successes counter

-- `successes`
unfoldable pub successes : LoadResult → ℕ
successes r = sum_successes r.status_codes

-- `failures`
unfoldable pub failures : LoadResult → ℕ
unfolding total successes
failures r = total r - successes r

abbrev element_at : ℕ → List ℕ → ℕ
element_at i [] = 0
element_at zero (x ∷ xs) = x
element_at (suc i) (x ∷ xs) = element_at i xs

-- `pct`, for a whole percentage
unfoldable pub pct : ℕ → LoadResult → ℕ
pct p r =
    let ordered = order_by ltb r.latencies_ms in
    element_at (min (length ordered * p / 100) (length ordered - 1)) ordered

-- The signal id in the payload of `one`.
unfoldable pub bench_id : Text → ℕ → Text
bench_id run_id index = numbered (text "bench") run_id index

-- What `one` does with a reply.
unfoldable pub count_reply : Reply → LoadResult → LoadResult
count_reply Reply.transport_error r = record r { errors = r.errors + 1 }
count_reply (Reply.answered status elapsed) r = record r {
  latencies_ms = r.latencies_ms ++ elapsed ∷ [];
  status_codes = bump status r.status_codes;
}

abbrev no_replies : LoadResult
no_replies = record { latencies_ms = []; status_codes = []; errors = 0 }

abbrev count_all : List Reply → LoadResult → LoadResult
count_all [] r = r
count_all (reply ∷ replies) r = count_all replies (count_reply reply r)

-- `run_load`, for a reply to each request.
unfoldable pub run_load : List Reply → LoadResult
unfolding count_reply
run_load replies = count_all replies no_replies

abbrev succeeded : Reply → Bool
succeeded Reply.transport_error = false
succeeded (Reply.answered status elapsed) = is_success status

abbrev successful : List Reply → ℕ
successful [] = 0
successful (reply ∷ replies) = (if succeeded reply then 1 else 0) + successful replies

successful_most : (replies : List Reply) → successful replies ≤ length replies
successful_most [] = omega arith
successful_most (reply ∷ replies) = ground (arith, successful_most replies)

sum_successes-bump :
    (code : ℕ) (counter : Counter)
    → sum_successes (bump code counter) ≡ sum_successes counter + (if is_success code then 1 else 0)
unfolding bump
sum_successes-bump code [] = omega arith
sum_successes-bump code ((key, n) ∷ counter) = ground (arith, sum_successes-bump code counter)

count_all_lem :
    (replies : List Reply) (r : LoadResult)
    → (total (count_all replies r) ≡ total r + length replies)
      × (successes (count_all replies r) ≡ successes r + successful replies)
unfolding total successes count_reply
count_all_lem [] r = (omega arith, omega arith)
count_all_lem (Reply.transport_error ∷ replies) r =
    omega (arith, count_all_lem replies (count_reply Reply.transport_error r))
count_all_lem (Reply.answered status elapsed ∷ replies) r = omega (
  arith,
  count_all_lem replies (count_reply (Reply.answered status elapsed) r),
  sum_successes-bump status r.status_codes,
  length-append r.latencies_ms (elapsed ∷ []),
)

-- Every request is counted once, as a success, which is one that was answered with a status from 200
-- to 299, or as a failure.
run_load_adds_up :
    (replies : List Reply)
    → let r = run_load replies in
      (total r ≡ length replies)
      × (successes r ≡ successful replies)
      × (successes r + failures r ≡ total r)
unfolding run_load failures total successes
run_load_adds_up replies = omega (arith, count_all_lem replies no_replies, successful_most replies)

All-element_at :
    (P : ℕ → Type 0) (i : ℕ) (xs : List ℕ) → i < length xs → All P xs → P (element_at i xs)
All-element_at P i [] h a = absurd (omega (arith, h))
All-element_at P zero (x ∷ xs) h a = a.0
All-element_at P (suc i) (x ∷ xs) h a = All-element_at P i xs (omega (arith, h)) a.1

-- A percentile of some latencies is one of them: it has every property that they all have.
pct-All :
    (P : ℕ → Type 0) (p : ℕ) (r : LoadResult)
    → 1 ≤ length r.latencies_ms
    → All P r.latencies_ms
    → P (pct p r)
unfolding pct
pct-All P p r some_latency h =
    let ordered = order_by ltb r.latencies_ms in
    let i = length ordered * p / 100 in
    let in_range : min i (length ordered - 1) < length ordered =
      omega (arith, length-order_by ltb r.latencies_ms) in
    All-element_at P (min i (length ordered - 1)) ordered in_range
      (All-order_by ltb P r.latencies_ms h)
