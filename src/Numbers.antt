-- ===== src/Numbers.antt =====
-- Python's `Decimal`: a sign, a coefficient and an exponent, or a special value.
pub mod Digits
pub mod Tests
pub mod Order
use crypto_auto_trader.Base.{
  ℕ, zero, suc, ◌+◌, ◌-◌, ◌*◌, ◌^◌, ◌/◌, ◌%◌, Bool, true, false, ◌&&◌, ◌||◌, Option, none, some,
  ltb, leb, ◌==◌, if◌then◌else◌, List, [], ◌∷◌, ◌++◌, length, take, drop, replicate, any,
}
use crypto_auto_trader.Base.Int.{ℤ, pos_part, neg_part, pos, negsuc}
use crypto_auto_trader.Text.{Text, rstrip}

-- `finite s c e` is (-1)^s * c * 10^e, where `true` is the minus sign.
pub data Decimal : Type 0 where
  finite : Bool → ℕ → ℤ → Decimal
  infinite : Bool → Decimal
  nan : Decimal

-- `Decimal("0")`
abbrev pub zero_decimal : Decimal
zero_decimal = Decimal.finite false 0 (pos 0)

-- a - b, cut off at 0
abbrev exponent_gap : ℤ → ℤ → ℕ
exponent_gap a b = (pos_part a + neg_part b) - (pos_part b + neg_part a)

abbrev magnitude_if : Bool → Bool → ℕ → ℕ
magnitude_if true true m = m
magnitude_if false false m = m
magnitude_if _ _ m = 0

-- Signed magnitudes at a common exponent: -m or m.
abbrev signed_lt : Bool → ℕ → Bool → ℕ → Bool
signed_lt s m t n =
    ltb (magnitude_if false s m + magnitude_if true t n)
      (magnitude_if false t n + magnitude_if true s m)

-- `a < b`; a comparison with NaN raises `InvalidOperation`, here `none`.
unfoldable pub decimal_lt : Decimal → Decimal → Option Bool
decimal_lt (Decimal.finite s c e) (Decimal.finite t d f) =
    some (signed_lt s (c * 10 ^ exponent_gap e f) t (d * 10 ^ exponent_gap f e))
decimal_lt (Decimal.finite _ _ _) (Decimal.infinite t) = some (if t then false else true)
decimal_lt (Decimal.infinite s) (Decimal.finite _ _ _) = some s
decimal_lt (Decimal.infinite s) (Decimal.infinite t) = some (if t then false else s)
decimal_lt _ _ = none

-- `value.is_finite()`
abbrev pub is_finite : Decimal → Bool
is_finite (Decimal.finite _ _ _) = true
is_finite _ = false

abbrev pub suc_ℤ : ℤ → ℤ
suc_ℤ (pos n) = pos (suc n)
suc_ℤ (negsuc zero) = pos 0
suc_ℤ (negsuc (suc n)) = negsuc n

abbrev add_ℕ : ℤ → ℕ → ℤ
add_ℕ e zero = e
add_ℕ e (suc k) = suc_ℤ (add_ℕ e k)

-- The decimal digits of a number, as code points; `suc n` rounds are enough for `n`.
digits_from : ℕ → ℕ → Text
digits_from zero n = []
digits_from (suc fuel) n =
    let rest = digits_from fuel (n / 10) in
    if ltb n 10 then (48 + n) ∷ [] else rest ++ (48 + n % 10) ∷ []

unfoldable pub digits : ℕ → Text
unfolding digits_from
digits n = digits_from (suc n) n

-- The precision of Python's default context.
abbrev precision : ℕ
precision = 28

-- ROUND_HALF_EVEN of c / 10^k
abbrev round_half_even : ℕ → ℕ → ℕ
round_half_even c k =
    let q = c / 10 ^ k in
    let r = c % 10 ^ k in
    if ltb (10 ^ k) (2 * r) || ((2 * r) == (10 ^ k) && (q % 2) == 1) then q + 1 else q

-- Trailing zeros of the coefficient move into the exponent.
strip_zeros : ℕ → ℕ → ℤ → ℕ × ℤ
strip_zeros zero c e = (c, e)
strip_zeros (suc fuel) c e =
    let rest = strip_zeros fuel (c / 10) (suc_ℤ e) in if (c % 10) == 0 then rest else (c, e)

-- `Decimal.normalize()` on a finite value: the coefficient and the exponent.
normalize : ℕ → ℤ → ℕ × ℤ
unfolding digits strip_zeros
normalize c e =
    let k = length (digits c) - precision in
    let q = if k == 0 then c else round_half_even c k in
    if q == 0 then (0, pos 0) else strip_zeros q q (add_ℕ e k)

-- `format(value, "f")` of an unsigned value: plain notation, for any exponent.
plain : ℕ → ℤ → Text
unfolding digits
plain c (pos e) = digits c ++ replicate e 48
plain c (negsuc k) =
    let ds = digits c in
    let places = suc k in
    if leb (length ds) places
    then 48 ∷ 46 ∷ (replicate (places - length ds) 48 ++ ds)
    else take (length ds - places) ds ++ 46 ∷ drop (length ds - places) ds

-- `text or "0"`
abbrev or_zero : Text → Text
or_zero [] = 48 ∷ []
or_zero (c ∷ t) = c ∷ t

-- `if "." in text: text = text.rstrip("0").rstrip(".")`, then `or`
tidy : Text → Text
tidy t =
    let stripped = if any (λ c. c == 46) t then rstrip 46 (rstrip 48 t) else t in or_zero stripped

-- `format_decimal`; `none` is the `ValueError` on a value that is not finite.
unfoldable pub format_decimal : Decimal → Option Text
unfolding normalize plain tidy
format_decimal (Decimal.finite s c e) =
    let (c', e') = normalize c e in
    let unsigned = plain c' e' in some (tidy (if s then 45 ∷ unsigned else unsigned))
format_decimal _ = none
