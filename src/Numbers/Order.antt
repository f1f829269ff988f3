-- ===== src/Numbers/Order.antt =====
-- Comparisons of decimals with different exponents.
use crypto_auto_trader.Base.{
  ℕ, zero, suc, ◌+◌, ◌*◌, ◌^◌, ◌≤◌, ◌<◌, ◌≡◌, sym, ap, ◌∙◌, Bool, true, false, some, arith,
}
use native.Mathlib.Nat.{
  pow-suc, mul-pos, mul-le-mul_right, mul-lt-mul_of_pos_right, lt_of_mul-lt-mul_right,
}
use crypto_auto_trader.Base.Int.{ℤ, pos}
use crypto_auto_trader.Numbers.{Decimal, zero_decimal, exponent_gap, is_finite, decimal_lt}

pow_pos : (n : ℕ) → 0 < 10 ^ n
pow_pos zero = omega arith
pow_pos (suc n) = omega (arith, pow-suc 10 n, pow_pos n)

pow_add : (a b : ℕ) → 10 ^ (a + b) ≡ 10 ^ a * 10 ^ b
pow_add a zero = let same : a + zero ≡ a = omega arith in rw same (omega arith)
pow_add a (suc b) =
    let next : a + suc b ≡ suc (a + b) = omega arith in
    rw next
      (omega (arith, pow-suc 10 (a + b), ap (λ (t : ℕ). 10 ^ a * t) (pow-suc 10 b), pow_add a b))

pow_add_twice : (a b c : ℕ) → 10 ^ (a + b + c) ≡ 10 ^ a * 10 ^ b * 10 ^ c
pow_add_twice a b c = pow_add (a + b) c ∙ ap (λ (t : ℕ). t * 10 ^ c) (pow_add a b)

-- What d 10^F is to M 10^N, by way of c 10^E, where each pair of numbers is scaled to one exponent.
scaled_lt :
    (d c m f1 e1 e0 n f0 k : ℕ)
    → e1 + n + f0 ≡ f1 + e0 + k
    → d * 10 ^ f1 ≤ c * 10 ^ e1
    → c * 10 ^ e0 < m * 10 ^ n
    → d * 10 ^ f0 < m * 10 ^ k
scaled_lt d c m f1 e1 e0 n f0 k exponents at_most below =
    let powers : 10 ^ e1 * 10 ^ n * 10 ^ f0 ≡ 10 ^ f1 * 10 ^ e0 * 10 ^ k =
      sym (pow_add_twice e1 n f0) ∙ ap (λ (t : ℕ). 10 ^ t) exponents ∙ pow_add_twice f1 e0 k in
    let first : d * 10 ^ f1 * 10 ^ e0 ≤ c * 10 ^ e1 * 10 ^ e0 =
      mul-le-mul_right (10 ^ e0) at_most in
    let second : c * 10 ^ e0 * 10 ^ e1 < m * 10 ^ n * 10 ^ e1 =
      mul-lt-mul_of_pos_right below (pow_pos e1) in
    let third : d * 10 ^ f1 * 10 ^ e0 < m * 10 ^ n * 10 ^ e1 = omega (arith, first, second) in
    let fourth : d * 10 ^ f1 * 10 ^ e0 * 10 ^ k < m * 10 ^ n * 10 ^ e1 * 10 ^ k =
      mul-lt-mul_of_pos_right third (pow_pos k) in
    lt_of_mul-lt-mul_right (10 ^ e1 * 10 ^ n) (omega (arith, fourth, ap (λ (t : ℕ). d * t) powers))

gap_sums :
    (e f : ℤ)
    → exponent_gap e f + exponent_gap (pos 0) e + exponent_gap f (pos 0)
      ≡ exponent_gap f e + exponent_gap e (pos 0) + exponent_gap (pos 0) f
gap_sums e f = omega arith

below_of :
    (s : Bool) (c d m : ℕ) (e f : ℤ)
    → decimal_lt zero_decimal (Decimal.finite false d f) ≡ some true
    → decimal_lt (Decimal.finite s c e) (Decimal.finite false d f) ≡ some false
    → decimal_lt (Decimal.finite s c e) (Decimal.finite false m (pos 0)) ≡ some true
    → decimal_lt (Decimal.finite false d f) (Decimal.finite false m (pos 0)) ≡ some true
unfolding decimal_lt
below_of true c zero m e f positive at_least bounded = ground (arith, positive)
below_of true c (suc d) m e f positive at_least bounded =
    let some_more : 0 < suc d * 10 ^ exponent_gap f e =
      mul-pos (omega arith) (pow_pos (exponent_gap f e)) in
    ground (arith, at_least, some_more)
below_of false c d m e f positive at_least bounded =
    let at_most : d * 10 ^ exponent_gap f e ≤ c * 10 ^ exponent_gap e f =
      ground (arith, at_least) in
    let below : c * 10 ^ exponent_gap e (pos 0) < m * 10 ^ exponent_gap (pos 0) e =
      ground (arith, bounded) in
    let result =
      scaled_lt d c m (exponent_gap f e) (exponent_gap e f) (exponent_gap e (pos 0))
        (exponent_gap (pos 0) e) (exponent_gap f (pos 0)) (exponent_gap (pos 0) f) (gap_sums e f)
        at_most below in
    ground (arith, result)

-- The value without its sign.
abbrev pub absolute : Decimal → Decimal
absolute (Decimal.finite s c e) = Decimal.finite false c e
absolute (Decimal.infinite s) = Decimal.infinite false
absolute Decimal.nan = Decimal.nan

-- A finite and positive decimal that is not above another is below each number that the other is
-- below.
pub absolute-below :
    (q maximum : Decimal) (m : ℕ)
    → is_finite q ≡ true
    → decimal_lt zero_decimal q ≡ some true
    → decimal_lt maximum q ≡ some false
    → decimal_lt maximum (Decimal.finite false m (pos 0)) ≡ some true
    → decimal_lt (absolute q) (Decimal.finite false m (pos 0)) ≡ some true
unfolding decimal_lt
absolute-below (Decimal.finite false d f) (Decimal.finite s c e) m finite positive at_least
      bounded =
    below_of s c d m e f positive at_least bounded
absolute-below (Decimal.finite true d f) maximum m finite positive at_least bounded =
    ground (arith, positive)
absolute-below (Decimal.finite false d f) (Decimal.infinite s) m finite positive at_least bounded =
    ground (arith, at_least, bounded)
absolute-below (Decimal.finite false d f) Decimal.nan m finite positive at_least bounded = cc
absolute-below (Decimal.infinite s) maximum m finite positive at_least bounded = cc
absolute-below Decimal.nan maximum m finite positive at_least bounded = cc
