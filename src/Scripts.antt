-- ===== src/Scripts.antt =====
-- What scripts/simulate_trades.py and scripts/benchmark_webhook.py share: the numbered signals that
-- they send, what comes back, and the counters of `collections.Counter`.
pub mod Signals
pub mod Counters
pub mod Simulation
pub mod Load
pub mod Bench
use crypto_auto_trader.Base.{
  ℕ, ◌+◌, ◌-◌, ◌%◌, Bool, Option, none, some, List, [], ◌∷◌, ◌++◌, ◌==◌, if◌then◌else◌, length,
  replicate, drop, take,
}
use crypto_auto_trader.Text.{Text, text, text_eq, strip}
use crypto_auto_trader.Numbers.{digits}
use crypto_auto_trader.Models.{OrderSide}

-- How one POST ends: an exception of the transport, or a status after some time.
pub data Reply : Type 0 where
  transport_error : Reply
  answered : ℕ → ℕ → Reply

abbrev pub Counter : Type 0
Counter = List (ℕ × ℕ)

-- `counter[code] += 1`
unfoldable pub bump : ℕ → Counter → Counter
bump code [] = (code, 1) ∷ []
bump code ((key, n) ∷ counter) =
    let rest = bump code counter in if key == code then (key, n + 1) ∷ counter else (key, n) ∷ rest

-- `f"{index:05d}"`
unfoldable pub padded : ℕ → Text
padded index = replicate (5 - length (digits index)) 48 ++ digits index

-- `f"{prefix}-{run_id}-{index:05d}"`
unfoldable pub numbered : Text → Text → ℕ → Text
unfolding padded
numbered prefix run_id index = prefix ++ text "-" ++ run_id ++ text "-" ++ padded index

-- `"BUY" if index % 2 == 0 else "SELL"`
unfoldable pub side_of : ℕ → OrderSide
side_of index = if index % 2 == 0 then OrderSide.buy else OrderSide.sell

-- `line.startswith("WEBHOOK_SECRET=")`
abbrev names_secret : Text → Bool
names_secret line = text_eq (take 15 line) (text "WEBHOOK_SECRET=")

-- `read_secret`: the lines of the file `.env`, if there is one, then the environment.
unfoldable pub read_secret : Option (List Text) → Option Text → Option Text
read_secret none environ = environ
read_secret (some []) environ = environ
read_secret (some (line ∷ lines)) environ =
    let rest = read_secret (some lines) environ in
    if names_secret line then some (strip (drop 15 line)) else rest

-- `args.secret or read_secret()`
abbrev pub or_found : Option Text → Option Text → Option Text
or_found (some (c ∷ secret)) found = some (c ∷ secret)
or_found _ found = found
