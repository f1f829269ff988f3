-- ===== src/Scripts/Bench.antt =====
-- scripts/benchmark_webhook.py: the servers that it starts and what it does with them. Times are whole
-- milliseconds, and only the probes of the server take any; what is printed is left out.
pub mod Servers
use crypto_auto_trader.Base.{
  ℕ, zero, suc, ◌+◌, ◌/◌, Bool, true, false, Option, none, some, List, [], ◌∷◌, ◌++◌, ◌==◌, ltb,
  if◌then◌else◌,
}
use Prim.Native.Nat.{max}
use crypto_auto_trader.Text.{Text, text}
use crypto_auto_trader.Numbers.{digits}
use crypto_auto_trader.Scripts.{Reply, read_secret, or_found}
use crypto_auto_trader.Scripts.Load.{LoadResult, run_load}

-- The options that decide what is done; `secret` is `none` or empty where there is none.
pub record Args : Type 0 where
  pub url : Text
  pub requests : ℕ
  pub concurrency : ℕ
  pub compare_modes : Bool
  pub concurrency_levels : List ℕ
  pub binance_latency_ms : ℕ
  pub port : ℕ
  pub secret : Option Text

-- What the script runs against: the status of `GET /health` at a time, if it is answered, and how
-- long that takes; the replies to some requests at a concurrency; and whether a server ends within
-- twenty seconds of being told to.
pub record Surroundings : Type 0 where
  pub probe : Text → ℕ → Option ℕ
  pub probe_time : Text → ℕ → ℕ
  pub replies : Text → ℕ → ℕ → List Reply
  pub stops : ℕ → Bool

-- The servers are named by their ports.
pub data Event : Type 0 where
  started : ℕ → Bool → ℕ → Event
  loaded : Text → ℕ → ℕ → Event
  terminated killed : ℕ → Event

-- The clock, and what was done, the last thing first.
pub record Bench : Type 0 where
  pub clock : ℕ
  pub events : List Event

abbrev pub did : Event → Bench → Bench
did e b = record b { events = e ∷ b.events }

abbrev pub is_ok : Option ℕ → Bool
is_ok none = false
is_ok (some status) = status == 200

-- The loop of `wait_for_health`, on fuel: a round takes at least the 400 ms of its sleep.
abbrev pub poll : ℕ → Surroundings → Text → ℕ → ℕ → Bool × ℕ
poll zero machine url deadline clock = (false, clock)
poll (suc fuel) machine url deadline clock =
    let probed = clock + machine.probe_time url clock in
    let rest = poll fuel machine url deadline (probed + 400) in
    if ltb clock deadline
    then (if is_ok (machine.probe url clock) then (true, probed) else rest)
    else (false, clock)

abbrev pub rounds : ℕ → ℕ
rounds timeout = timeout / 400 + 1

unfoldable pub wait_for_health : Surroundings → Text → ℕ → Bench → Bool × Bench
wait_for_health machine url timeout b =
    let polled = poll (rounds timeout) machine url (b.clock + timeout) b.clock in
    (polled.0, record b { clock = polled.1 })

abbrev pub measure : Surroundings → Text → ℕ → ℕ → Bench → LoadResult × Bench
measure machine url requests concurrency b = (
  run_load (machine.replies url requests concurrency),
  did (Event.loaded url requests concurrency) b,
)

-- A dict of results by concurrency.
abbrev pub put : ℕ → LoadResult → List (ℕ × LoadResult) → List (ℕ × LoadResult)
put level result [] = (level, result) ∷ []
put level result ((key, other) ∷ results) =
    let rest = put level result results in
    if key == level then (key, result) ∷ results else (key, other) ∷ rest

abbrev pub measure_levels :
    Surroundings → Text → ℕ → List ℕ → List (ℕ × LoadResult) → Bench → List (ℕ × LoadResult) × Bench
measure_levels machine url requests [] results b = (results, b)
measure_levels machine url requests (level ∷ levels) results b =
    let measured = measure machine url requests level b in
    measure_levels machine url requests levels (put level measured.0 results) measured.1

-- The body of the `try` of `benchmark_mode`: `none` where it raises.
unfoldable pub attempt_mode :
    Surroundings → Args → Text → List ℕ → Bool → Bench → Option (List (ℕ × LoadResult)) × Bench
attempt_mode machine args url levels false b = (none, b)
attempt_mode machine args url [] true b = (none, b)
attempt_mode machine args url (level ∷ levels) true b =
    let warm = measure machine url (max 5 level) level b in
    let measured = measure_levels machine url args.requests (level ∷ levels) [] warm.1 in
    (some measured.0, measured.1)

-- The `finally`.
abbrev pub stop_server : Surroundings → ℕ → Bench → Bench
stop_server machine port b =
    let asked = did (Event.terminated port) b in
    if machine.stops port then asked else did (Event.killed port) asked

abbrev pub url_at : ℕ → Text
url_at port = text "http://127.0.0.1:" ++ digits port

unfoldable pub benchmark_mode :
    Surroundings → Args → Bool → ℕ → Bench → Option (List (ℕ × LoadResult)) × Bench
benchmark_mode machine args async_execution port b =
    let up = did (Event.started port async_execution args.binance_latency_ms) b in
    let waited = wait_for_health machine (url_at port) 45000 up in
    let tried = attempt_mode machine args (url_at port) args.concurrency_levels waited.0 waited.1 in
    (tried.0, stop_server machine port tried.1)

-- `async_main` without `--compare`.
unfoldable pub load_running_server : Surroundings → Args → Bench → Option ℕ × Bench
load_running_server machine args b =
    let waited = wait_for_health machine args.url 5000 b in
    if waited.0
    then (some 0, (measure machine args.url args.requests args.concurrency waited.1).1)
    else (some 1, waited.1)

abbrev compare_code : Option (List (ℕ × LoadResult)) → Option ℕ
compare_code none = none
compare_code (some results) = some 0

abbrev pub after_baseline :
    Surroundings → Args → Option (List (ℕ × LoadResult)) → Bench → Option ℕ × Bench
after_baseline machine args none b = (none, b)
after_baseline machine args (some baseline) b =
    let optimised = benchmark_mode machine args true (args.port + 1) b in
    (compare_code optimised.0, optimised.1)

-- `async_main` with `--compare`.
unfoldable pub compare_both : Surroundings → Args → Bench → Option ℕ × Bench
compare_both machine args b =
    let baseline = benchmark_mode machine args false args.port b in
    after_baseline machine args baseline.0 baseline.1

abbrev pub with_secret : Surroundings → Args → Option Text → Bench → Option ℕ × Bench
with_secret machine args (some (c ∷ secret)) b =
    if args.compare_modes then compare_both machine args b else load_running_server machine args b
with_secret machine args _ b = (some 1, b)

-- `async_main`: the exit code, or `none` where it raises.
unfoldable pub async_main : Surroundings → Args → Bench → Option ℕ × Bench
async_main machine args b = with_secret machine args args.secret b

-- `main`, for the lines of the file `.env` and the environment.
unfoldable pub main :
    Surroundings → Option (List Text) → Option Text → Args → Bench → Option ℕ × Bench
main machine env_file environ args b =
    async_main machine
      (record args { secret = or_found args.secret (read_secret env_file environ) }) b
