-- ===== src/Webhook/Gate.antt =====
-- Who may post a signal.
use crypto_auto_trader.Base.{◌≡◌, ◌≢◌, ◌↔◌, ◌⊎◌, true, Option, none, some, [], ◌∷◌, arith}
use crypto_auto_trader.Text.{Text, text_eq_iff}
use crypto_auto_trader.Errors.{ok}
use crypto_auto_trader.Host.{Host}
use crypto_auto_trader.Security.{secrets_match}
use crypto_auto_trader.Webhook.{authenticate_webhook}

secrets_match_iff :
    (provided : Option Text) (expected : Text)
    → expected ≢ []
    → (secrets_match provided expected ≡ true) ↔ (provided ≡ some expected)
unfolding secrets_match
secrets_match_iff none expected given = ground arith
secrets_match_iff (some []) expected given = ground arith
secrets_match_iff (some (c ∷ s)) expected given = ground (arith, text_eq_iff (c ∷ s) expected)

-- With a secret configured, a webhook call is let through exactly when the header or the body
-- carries that secret.
pub authenticate_webhook_iff :
    (host : Host) (header_secret body_secret : Option Text)
    → host.settings.webhook_secret ≢ []
    → (authenticate_webhook host header_secret body_secret ≡ ok tt) ↔ (
        (header_secret ≡ some host.settings.webhook_secret)
        ⊎ (body_secret ≡ some host.settings.webhook_secret))
unfolding authenticate_webhook
authenticate_webhook_iff host header_secret body_secret given = ground (
  arith,
  secrets_match_iff header_secret host.settings.webhook_secret given,
  secrets_match_iff body_secret host.settings.webhook_secret given,
)
