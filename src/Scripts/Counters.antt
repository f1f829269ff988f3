-- ===== src/Scripts/Counters.antt =====
-- Reading a counter back.
use crypto_auto_trader.Base.{ℕ, ◌+◌, ◌≡◌, [], ◌∷◌, arith, ◌==◌, if◌then◌else◌}
use crypto_auto_trader.Scripts.{Counter, bump}

-- `counter.get(code, 0)`
abbrev pub get : ℕ → Counter → ℕ
get code [] = 0
get code ((key, n) ∷ counter) = let rest = get code counter in if key == code then n else rest

pub get-bump :
    (code other : ℕ) (counter : Counter)
    → get code (bump other counter) ≡ get code counter + (if other == code then 1 else 0)
unfolding bump
get-bump code other [] = ground arith
get-bump code other ((key, n) ∷ counter) = ground (arith, get-bump code other counter)
