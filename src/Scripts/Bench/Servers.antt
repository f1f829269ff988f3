-- ===== src/Scripts/Bench/Servers.antt =====
-- The servers that the benchmark starts, and the loop that waits for one.
use crypto_auto_trader.Base.{
  ℕ, zero, suc, ◌+◌, ◌*◌, ◌≡◌, ◌≤◌, refl, Bool, true, false, Bool-cases, Option, none, some, List,
  [], ◌∷◌, ◌==◌, inl, inr, arith, length, if◌then◌else◌,
}
use Prim.Native.Nat.{max}
use crypto_auto_trader.Text.{Text}
use crypto_auto_trader.Scripts.{read_secret, or_found}
use crypto_auto_trader.Scripts.Load.{LoadResult}
use crypto_auto_trader.Scripts.Bench.{
  Args, Surroundings, Event, Bench, poll, rounds, did, measure, put, measure_levels, attempt_mode,
  stop_server, url_at, wait_for_health, benchmark_mode, load_running_server, compare_both,
  after_baseline, with_secret, async_main, main,
}

-- A loop that waits for a server has ended by itself once its rounds fill the time: more rounds change
-- nothing.
poll_lem :
    (fuel extra : ℕ) (machine : Surroundings) (url : Text) (deadline clock : ℕ)
    → deadline ≤ clock + 400 * fuel
    → poll (fuel + extra) machine url deadline clock ≡ poll fuel machine url deadline clock
poll_lem zero zero machine url deadline clock h = refl
poll_lem zero (suc extra) machine url deadline clock h = ground (arith, h)
poll_lem (suc fuel) extra machine url deadline clock h =
    let next = clock + machine.probe_time url clock + 400 in
    let one_more : suc fuel + extra ≡ suc (fuel + extra) = omega arith in
    rw (one_more, poll_lem fuel extra machine url deadline next (omega (arith, h))) refl

-- The rounds that `wait_for_health` is given fill its time.
rounds_enough :
    (extra : ℕ) (machine : Surroundings) (url : Text) (timeout clock : ℕ)
    → poll (rounds timeout + extra) machine url (clock + timeout) clock
      ≡ poll (rounds timeout) machine url (clock + timeout) clock
rounds_enough extra machine url timeout clock =
    poll_lem (rounds timeout) extra machine url (clock + timeout) clock (omega arith)

abbrev remove : ℕ → List ℕ → List ℕ
remove port [] = []
remove port (p ∷ ports) = let rest = remove port ports in if p == port then ports else p ∷ rest

-- The ports of the servers that were started and not told to stop.
abbrev pub ports_up : List Event → List ℕ
ports_up [] = []
ports_up (Event.started port async_execution latency ∷ es) = port ∷ ports_up es
ports_up (Event.loaded url requests concurrency ∷ es) = ports_up es
ports_up (Event.terminated port ∷ es) = remove port (ports_up es)
ports_up (Event.killed port ∷ es) = ports_up es

-- At no time was there more than one.
abbrev pub IsSequential : List Event → Type 0
IsSequential [] = Unit
IsSequential (e ∷ es) = (length (ports_up (e ∷ es)) ≤ 1) × IsSequential es

-- What happened since some servers ran: they still run, and no second one was started.
abbrev IsQuiet : List ℕ → Bench → Type 0
IsQuiet ports b = (ports_up b.events ≡ ports) × IsSequential b.events

IsQuiet-loaded :
    (url : Text) (requests concurrency port : ℕ) (b : Bench)
    → IsQuiet (port ∷ []) b
    → IsQuiet (port ∷ []) (did (Event.loaded url requests concurrency) b)
IsQuiet-loaded url requests concurrency port b h = (h.0, (rw h.0 (omega arith), h.1))

measure_levels_lem :
    (machine : Surroundings) (url : Text) (requests : ℕ) (levels : List ℕ)
    (results : List (ℕ × LoadResult)) (port : ℕ) (b : Bench)
    → IsQuiet (port ∷ []) b
    → IsQuiet (port ∷ []) (measure_levels machine url requests levels results b).1
measure_levels_lem machine url requests [] results port b h = h
measure_levels_lem machine url requests (level ∷ levels) results port b h =
    let measured = measure machine url requests level b in
    measure_levels_lem machine url requests levels (put level measured.0 results) port measured.1
      (IsQuiet-loaded url requests level port b h)

attempt_mode_lem :
    (machine : Surroundings) (args : Args) (url : Text) (levels : List ℕ) (healthy : Bool)
    (port : ℕ) (b : Bench)
    → IsQuiet (port ∷ []) b
    → IsQuiet (port ∷ []) (attempt_mode machine args url levels healthy b).1
unfolding attempt_mode
attempt_mode_lem machine args url levels false port b h = h
attempt_mode_lem machine args url [] true port b h = h
attempt_mode_lem machine args url (level ∷ levels) true port b h =
    let warm = measure machine url (max 5 level) level b in
    measure_levels_lem machine url args.requests (level ∷ levels) [] port warm.1
      (IsQuiet-loaded url (max 5 level) level port b h)

remove_only : (port : ℕ) → remove port (port ∷ []) ≡ []
remove_only port = ground arith

IsQuiet-terminated :
    (port : ℕ) (b : Bench) → IsQuiet (port ∷ []) b → IsQuiet [] (did (Event.terminated port) b)
IsQuiet-terminated port b h =
    let ended : remove port (ports_up b.events) ≡ [] = rw h.0 (remove_only port) in
    (ended, (rw ended (omega arith), h.1))

stop_server_lem :
    (machine : Surroundings) (port : ℕ) (b : Bench)
    → IsQuiet (port ∷ []) b
    → IsQuiet [] (stop_server machine port b)
stop_server_lem machine port b h =
    let asked = IsQuiet-terminated port b h in
    elim (Bool-cases (machine.stops port)) [
      | inl soon ↦ rw soon asked
      | inr late ↦ rw late (asked.0, (rw asked.0 (omega arith), asked.1))
    ]

benchmark_mode_lem :
    (machine : Surroundings) (args : Args) (async_execution : Bool) (port : ℕ) (b : Bench)
    → IsQuiet [] b
    → IsQuiet [] (benchmark_mode machine args async_execution port b).1
unfolding benchmark_mode wait_for_health
benchmark_mode_lem machine args async_execution port b h =
    let url = url_at port in
    let up = did (Event.started port async_execution args.binance_latency_ms) b in
    let waited = wait_for_health machine url 45000 up in
    let begun : ports_up up.events ≡ port ∷ [] = rw h.0 refl in
    stop_server_lem machine port
      (attempt_mode machine args url args.concurrency_levels waited.0 waited.1).1
      (attempt_mode_lem machine args url args.concurrency_levels waited.0 port waited.1
        (begun, (rw h.0 (omega arith), h.1)))

after_baseline_lem :
    (machine : Surroundings) (args : Args) (baseline : Option (List (ℕ × LoadResult))) (b : Bench)
    → IsQuiet [] b
    → IsQuiet [] (after_baseline machine args baseline b).1
after_baseline_lem machine args none b h = h
after_baseline_lem machine args (some baseline) b h =
    benchmark_mode_lem machine args true (args.port + 1) b h

load_running_server_lem :
    (machine : Surroundings) (args : Args) (b : Bench)
    → IsQuiet [] b
    → IsQuiet [] (load_running_server machine args b).1
unfolding load_running_server wait_for_health
load_running_server_lem machine args b h =
    elim (Bool-cases (wait_for_health machine args.url 5000 b).0) [
      | inl up ↦ rw up (h.0, (rw h.0 (omega arith), h.1))
      | inr down ↦ rw down h
    ]

IsQuiet-if :
    (test : Bool) (x y : Option ℕ × Bench)
    → IsQuiet [] x.1
    → IsQuiet [] y.1
    → IsQuiet [] (if test then x else y).1
IsQuiet-if true x y hx hy = hx
IsQuiet-if false x y hx hy = hy

with_secret_lem :
    (machine : Surroundings) (args : Args) (secret : Option Text) (b : Bench)
    → IsQuiet [] b
    → IsQuiet [] (with_secret machine args secret b).1
unfolding compare_both
with_secret_lem machine args none b h = h
with_secret_lem machine args (some []) b h = h
with_secret_lem machine args (some (c ∷ secret)) b h =
    let baseline = benchmark_mode machine args false args.port b in
    let compared =
      after_baseline_lem machine args baseline.0 baseline.1
        (benchmark_mode_lem machine args false args.port b h) in
    IsQuiet-if args.compare_modes (compare_both machine args b) (load_running_server machine args b)
      compared (load_running_server_lem machine args b h)

-- However the benchmark ends, with an exit code or with an exception, each server that it started was
-- told to stop, and at no time did two of them run.
servers_are_stopped :
    (machine : Surroundings) (env_file : Option (List Text)) (environ : Option Text) (args : Args)
    (clock : ℕ)
    → let end = (main machine env_file environ args (record { clock = clock; events = [] })).1 in
      (ports_up end.events ≡ []) × IsSequential end.events
unfolding main async_main
servers_are_stopped machine env_file environ args clock =
    let secret = or_found args.secret (read_secret env_file environ) in
    with_secret_lem machine (record args { secret = secret }) secret
      (record { clock = clock; events = [] }) (refl, tt)
