-- ===== src/Config/Testnet.antt =====
-- The gate that keeps the program on the testnet.
use crypto_auto_trader.Base.{◌≡◌, refl, true, false, some, [], ◌∷◌, arith, any}
use crypto_auto_trader.Text.{Text, text, text_eq, text_in}
use crypto_auto_trader.Config.{
  ParsedUrl, allowed_binance_hosts, known_production_binance_hosts, enforce_testnet_only,
  binance_host,
}

-- No allowed host is a production host.
lists_disjoint : any (λ h. text_in h known_production_binance_hosts) allowed_binance_hosts ≡ false
unfolding allowed_binance_hosts known_production_binance_hosts text_eq
lists_disjoint = refl

-- A base URL that configuration accepts names an allowed testnet host over http or https, and no
-- known production host.
pub accepted_url_is_testnet :
    (urlparse : Text → ParsedUrl) (lower : Text → Text) (value url : Text)
    → enforce_testnet_only urlparse lower value ≡ some url
    → (text_in (binance_host urlparse lower url) allowed_binance_hosts ≡ true)
      × (text_in (binance_host urlparse lower url) known_production_binance_hosts ≡ false)
      × (text_in (urlparse url).scheme (text "http" ∷ text "https" ∷ []) ≡ true)
unfolding enforce_testnet_only binance_host
accepted_url_is_testnet urlparse lower value url h = ground arith
