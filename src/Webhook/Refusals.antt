-- ===== src/Webhook/Refusals.antt =====
-- Webhook calls that are turned away at the gate.
use crypto_auto_trader.Base.{◌≡◌, ◌≢◌, refl, false, Option, none, some, [], ◌∷◌, arith}
use crypto_auto_trader.Text.{Text, text, text_eq_iff}
use crypto_auto_trader.Errors.{AppErrorClass, Exc, err}
use crypto_auto_trader.Host.{Host}
use crypto_auto_trader.World.{World}
use crypto_auto_trader.World.Runs.{bind-lift_ok, bind-lift_err}
use crypto_auto_trader.Security.{secrets_match}
use crypto_auto_trader.Payload.{RawPayload, Payload, parse_payload}
use crypto_auto_trader.BinanceClient.{Client}
use crypto_auto_trader.Webhook.{authenticate_webhook, tradingview_webhook}

not-secrets_match :
    (provided : Option Text) (expected : Text)
    → provided ≢ some expected
    → secrets_match provided expected ≡ false
unfolding secrets_match
not-secrets_match none expected other = refl
not-secrets_match (some []) expected other = refl
not-secrets_match (some (c ∷ s)) expected other = ground (arith, text_eq_iff (c ∷ s) expected)

abbrev wrong_secret : Exc
wrong_secret = Exc.app AppErrorClass.authentication (text "Invalid or missing webhook secret.")

not-authenticate_webhook :
    (host : Host) (header_secret body_secret : Option Text)
    → header_secret ≢ some host.settings.webhook_secret
    → body_secret ≢ some host.settings.webhook_secret
    → authenticate_webhook host header_secret body_secret ≡ err wrong_secret
unfolding authenticate_webhook
not-authenticate_webhook host header_secret body_secret no_header no_body = simp (
  not-secrets_match header_secret host.settings.webhook_secret no_header,
  not-secrets_match body_secret host.settings.webhook_secret no_body,
)

-- A webhook call whose payload is well formed, with the secret neither in its header nor in its
-- body, is answered with the error of the gate, and the state stays as it was: no row, no queued id,
-- no request to the exchange, no commit.
webhook_without_secret :
    (host : Host) (client : Client) (raw : RawPayload) (payload : Payload)
    (x_webhook_secret : Option Text) (w : World)
    → parse_payload host.upper_char raw ≡ some payload
    → x_webhook_secret ≢ some host.settings.webhook_secret
    → payload.secret ≢ some host.settings.webhook_secret
    → tradingview_webhook host client raw x_webhook_secret w ≡ (err wrong_secret, w)
unfolding tradingview_webhook
webhook_without_secret host client raw payload x_webhook_secret w parsed no_header no_body = rw (
  parsed,
  bind-lift_ok,
  not-authenticate_webhook host x_webhook_secret payload.secret no_header no_body,
  bind-lift_err,
)
