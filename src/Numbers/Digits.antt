-- ===== src/Numbers/Digits.antt =====
-- Decimal digits read back.
use crypto_auto_trader.Base.{
  ℕ, zero, suc, ◌+◌, ◌-◌, ◌*◌, ◌/◌, ◌<◌, ◌≡◌, refl, [], ◌∷◌, ◌++◌, arith, ltb, Bool-cases, inl, inr,
}
use crypto_auto_trader.Text.{Text}
use crypto_auto_trader.Numbers.{digits_from, digits}

-- The number that decimal digits stand for, after the digits of `n`.
abbrev pub value_from : ℕ → Text → ℕ
value_from n [] = n
value_from n (c ∷ t) = value_from (10 * n + (c - 48)) t

value_from-append :
    (n : ℕ) (xs ys : Text) → value_from n (xs ++ ys) ≡ value_from (value_from n xs) ys
value_from-append n [] ys = refl
value_from-append n (c ∷ xs) ys = value_from-append (10 * n + (c - 48)) xs ys

value_from-digits_from : (fuel n : ℕ) → n < fuel → value_from 0 (digits_from fuel n) ≡ n
unfolding digits_from
value_from-digits_from zero n h = omega (arith, h)
value_from-digits_from (suc fuel) n h = elim (Bool-cases (ltb n 10)) [
  | inl small ↦ rw small (omega arith)
  | inr large ↦
      rw (large, value_from-append, value_from-digits_from fuel (n / 10) (ground arith))
        (omega arith)
]

-- The digits of a number stand for that number.
pub value_from-digits : (n : ℕ) → value_from 0 (digits n) ≡ n
unfolding digits
value_from-digits n = value_from-digits_from (suc n) n (omega arith)
