-- ===== src/Numbers/Tests.antt =====
-- Runs of `format_decimal`, those of its docstring among them.
use crypto_auto_trader.Base.{◌≡◌, refl, some, true, false}
use crypto_auto_trader.Base.Int.{pos, negsuc}
use crypto_auto_trader.Text.{text, rstrip}
use crypto_auto_trader.Numbers.{Decimal, format_decimal}

format_padded : format_decimal (Decimal.finite false 1000000000 (negsuc 11)) ≡ some (text "0.001")
unfolding format_decimal rstrip
format_padded = refl

format_small : format_decimal (Decimal.finite false 150 (negsuc 1)) ≡ some (text "1.5")
unfolding format_decimal rstrip
format_small = refl

format_large : format_decimal (Decimal.finite true 1 (pos 2)) ≡ some (text "-100")
unfolding format_decimal rstrip
format_large = refl
