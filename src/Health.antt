-- ===== src/Health.antt =====
-- app/api/routes/health.py and app/schemas/health.py: the two probes.
use crypto_auto_trader.Base.{ℕ, Bool, if◌then◌else◌}
use crypto_auto_trader.Text.{Text, text}
use crypto_auto_trader.Config.{binance_host}
use crypto_auto_trader.Host.{Settings, Host}

-- `LivenessResponse`
pub record LivenessResponse : Type 0 where
  pub status : Text
  pub app : Text
  pub environment : Text

-- `ReadinessResponse`
pub record ReadinessResponse : Type 0 where
  pub status : Text
  pub database : Text
  pub binance_host : Text

-- `health`
unfoldable pub health : Settings → LivenessResponse
health settings = record {
  status = text "ok";
  app = settings.app_name;
  environment = settings.environment;
}

-- `readiness`: the status code, and the body.
unfoldable pub readiness : Host → Bool → ℕ × ReadinessResponse
readiness host database_up = (
  (if database_up then 200 else 503),
  record {
    status = if database_up then text "ready" else text "degraded";
    database = if database_up then text "up" else text "down";
    binance_host = binance_host host.urlparse host.lower host.settings.binance_base_url;
  },
)
