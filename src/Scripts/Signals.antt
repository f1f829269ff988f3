-- ===== src/Scripts/Signals.antt =====
-- Numbered signals differ.
use crypto_auto_trader.Base.{
  ℕ, zero, suc, ◌-◌, ◌≡◌, refl, sym, ap, ◌∙◌, [], ◌∷◌, ◌++◌, length, replicate,
}
use crypto_auto_trader.Text.{Text, text}
use crypto_auto_trader.Numbers.{digits}
use crypto_auto_trader.Numbers.Digits.{value_from, value_from-digits}
use crypto_auto_trader.Scripts.{padded, numbered}

value_from-replicate : (k : ℕ) (t : Text) → value_from 0 (replicate k 48 ++ t) ≡ value_from 0 t
value_from-replicate zero t = refl
value_from-replicate (suc k) t = value_from-replicate k t

value_from-padded : (index : ℕ) → value_from 0 (padded index) ≡ index
unfolding padded
value_from-padded index =
    value_from-replicate (5 - length (digits index)) (digits index) ∙ value_from-digits index

append_cancel : (p s t : Text) → p ++ s ≡ p ++ t → s ≡ t
append_cancel [] s t h = h
append_cancel (c ∷ p) s t h = append_cancel p s t (ap tail h)
  where
    tail : Text → Text
    tail [] = []
    tail (x ∷ xs) = xs

-- Two signals of one run have the same id only if they have the same number.
numbered-inj :
    (prefix run_id : Text) (i j : ℕ) → numbered prefix run_id i ≡ numbered prefix run_id j → i ≡ j
unfolding numbered
numbered-inj prefix run_id i j h =
    let before = prefix ++ text "-" ++ run_id ++ text "-" in
    let same = append_cancel before (padded i) (padded j) h in
    sym (value_from-padded i) ∙ ap (value_from 0) same ∙ value_from-padded j
