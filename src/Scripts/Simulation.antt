-- ===== src/Scripts/Simulation.antt =====
-- scripts/simulate_trades.py: `simulate`. Replies come in the order in which their tasks end.
use crypto_auto_trader.Base.{
  ℕ, zero, suc, ◌+◌, ◌-◌, ◌%◌, ◌≤◌, ◌≡◌, ◌≢◌, ◌↔◌, refl, Bool, true, false, not, ◌&&◌, ◌||◌, Option,
  none, some, List, [], ◌∷◌, ◌++◌, arith, ◌==◌, if◌then◌else◌, length, All,
}
use crypto_auto_trader.Text.{Text, text}
use crypto_auto_trader.Scripts.{Reply, Counter, bump, numbered, read_secret, or_found}
use crypto_auto_trader.Scripts.Counters.{get, get-bump}

-- The signal id of `send`: with `duplicate_every`, now and then the id before.
unfoldable pub signal_id : Text → ℕ → ℕ → Text
signal_id run_id duplicate_every index =
    if not (duplicate_every == 0) && not (index == 0) && (index % duplicate_every == 0)
    then numbered (text "sim") run_id (index - 1)
    else numbered (text "sim") run_id index

-- `SYMBOLS`
abbrev symbols : List Text
symbols = text "BTCUSDT" ∷ text "ETHUSDT" ∷ text "BNBUSDT" ∷ text "SOLUSDT" ∷ text "XRPUSDT" ∷ []

abbrev symbol_at : ℕ → List Text → Text
symbol_at i [] = []
symbol_at zero (s ∷ ss) = s
symbol_at (suc i) (s ∷ ss) = symbol_at i ss

-- `args.symbol or SYMBOLS[index % len(SYMBOLS)]`
unfoldable pub symbol_of : Option Text → ℕ → Text
symbol_of (some (c ∷ s)) index = c ∷ s
symbol_of _ index = symbol_at (index % length symbols) symbols

-- The counters that `send` changes.
pub record Tally : Type 0 where
  pub statuses : Counter
  pub latencies : List ℕ
  pub transport_errors : ℕ

-- The end of `send`.
unfoldable pub count_reply : Reply → Tally → Tally
count_reply Reply.transport_error t = record t { transport_errors = t.transport_errors + 1 }
count_reply (Reply.answered status elapsed) t = record t {
  statuses = bump status t.statuses;
  latencies = t.latencies ++ elapsed ∷ [];
}

unfoldable pub count_all : List Reply → Tally → Tally
count_all [] t = t
count_all (reply ∷ replies) t = count_all replies (count_reply reply t)

abbrev no_replies : Tally
no_replies = record { statuses = []; latencies = []; transport_errors = 0 }

-- `return 0 if (accepted + duplicates) == args.count else 1`
abbrev exit_code : ℕ → Tally → ℕ
exit_code count t = if (get 202 t.statuses + get 409 t.statuses) == count then 0 else 1

-- `simulate`, for the status of `/health/ready`, if there is one, and a reply to each signal.
unfoldable pub simulate : Option ℕ → List Reply → ℕ
simulate none replies = 1
simulate (some status) replies =
    if status == 200 then exit_code (length replies) (count_all replies no_replies) else 1

abbrev with_given : Option Text → Option ℕ → List Reply → ℕ
with_given (some (c ∷ secret)) status replies = simulate status replies
with_given _ status replies = 1

-- `main`, for the option `--secret`, the lines of the file `.env` and the environment.
unfoldable pub simulate_script :
    Option Text → Option (List Text) → Option Text → Option ℕ → List Reply → ℕ
simulate_script secret env_file environ =
    with_given (or_found secret (read_secret env_file environ))

-- Accepted, or refused as a duplicate.
abbrev is_settled : Reply → Bool
is_settled Reply.transport_error = false
is_settled (Reply.answered status elapsed) = (status == 202) || (status == 409)

abbrev settled : List Reply → ℕ
settled [] = 0
settled (reply ∷ replies) = (if is_settled reply then 1 else 0) + settled replies

count_reply_lem :
    (reply : Reply) (t : Tally)
    → let u = count_reply reply t in
      get 202 u.statuses + get 409 u.statuses
      ≡ get 202 t.statuses + get 409 t.statuses + (if is_settled reply then 1 else 0)
unfolding count_reply
count_reply_lem Reply.transport_error t = omega arith
count_reply_lem (Reply.answered status elapsed) t =
    ground (arith, get-bump 202 status t.statuses, get-bump 409 status t.statuses)

count_all_lem :
    (replies : List Reply) (t : Tally)
    → let u = count_all replies t in
      get 202 u.statuses + get 409 u.statuses
      ≡ get 202 t.statuses + get 409 t.statuses + settled replies
unfolding count_all
count_all_lem [] t = omega arith
count_all_lem (reply ∷ replies) t =
    omega (arith, count_all_lem replies (count_reply reply t), count_reply_lem reply t)

settled_most : (replies : List Reply) → settled replies ≤ length replies
settled_most [] = omega arith
settled_most (reply ∷ replies) = ground (arith, settled_most replies)

settled_all :
    (replies : List Reply)
    → (settled replies ≡ length replies) ↔ All (λ r. is_settled r ≡ true) replies
settled_all [] = (λ h. tt, λ h. refl)
settled_all (reply ∷ replies) = ground (arith, settled_all replies, settled_most replies)

exit_code_iff :
    (count : ℕ) (t : Tally)
    → (exit_code count t ≡ 0) ↔ (get 202 t.statuses + get 409 t.statuses ≡ count)
exit_code_iff count t = ground arith

simulate_lem :
    (status : Option ℕ) (replies : List Reply)
    → (simulate status replies ≡ 0)
      ↔ ((status ≡ some 200) × (exit_code (length replies) (count_all replies no_replies) ≡ 0))
unfolding simulate
simulate_lem status replies = ground arith

-- The simulation ends with exit code 0 exactly when the server was ready and every signal was either
-- accepted or refused as a duplicate.
simulate_iff :
    (status : Option ℕ) (replies : List Reply)
    → (simulate status replies ≡ 0) ↔ ((status ≡ some 200) × All (λ r. is_settled r ≡ true) replies)
simulate_iff status replies = ground (
  arith,
  simulate_lem status replies,
  settled_all replies,
  count_all_lem replies no_replies,
  exit_code_iff (length replies) (count_all replies no_replies),
)

with_given_lem :
    (secret : Option Text) (status : Option ℕ) (replies : List Reply)
    → with_given secret status replies ≡ 0
    → (secret ≢ none) × (secret ≢ some []) × (simulate status replies ≡ 0)
with_given_lem none status replies h = cc
with_given_lem (some []) status replies h = cc
with_given_lem (some (c ∷ secret)) status replies h = ((λ e. cc), (λ e. cc), h)

-- The script that sends the signals ends with exit code 0 only with a secret, and when the server was
-- ready and every signal was either accepted or refused as a duplicate.
simulate_script_sound :
    (secret : Option Text) (env_file : Option (List Text)) (environ : Option Text)
    (status : Option ℕ) (replies : List Reply)
    → simulate_script secret env_file environ status replies ≡ 0
    → let given = or_found secret (read_secret env_file environ) in
      (given ≢ none)
      × (given ≢ some [])
      × (status ≡ some 200)
      × All (λ r. is_settled r ≡ true) replies
unfolding simulate_script
simulate_script_sound secret env_file environ status replies h =
    let (some_secret, no_blank, ended) =
      with_given_lem (or_found secret (read_secret env_file environ)) status replies h in
    let (ready, all_settled) = (simulate_iff status replies).0 ended in
    (some_secret, no_blank, ready, all_settled)
