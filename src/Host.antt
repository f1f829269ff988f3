-- ===== src/Host.antt =====
-- What the process runs against: its settings, the HTTP transport, the database's commits, and the
-- functions of libraries that are not in this repository. Nothing is assumed of these functions.
use crypto_auto_trader.Base.{ℕ, Bool, Option, List}
use crypto_auto_trader.Base.Int.{ℤ}
use crypto_auto_trader.Text.{Text}
use crypto_auto_trader.Numbers.{Decimal}
use crypto_auto_trader.Json.{Json}
use crypto_auto_trader.Config.{ParsedUrl}

-- The settings of app/core/config.py that the modelled code reads, after validation. The two order
-- sizes are the values of `Decimal(str(...))`.
pub record Settings : Type 0 where
  pub app_name : Text
  pub environment : Text
  pub log_level : Text
  pub database_url : Text
  pub db_pool_size : ℕ
  pub db_max_overflow : ℕ
  pub db_pool_timeout_seconds : ℕ
  pub db_echo : Bool
  pub jwt_secret : Text
  pub access_token_expire_minutes : ℕ
  pub webhook_secret : Text
  pub webhook_trade_owner_email : Text
  pub binance_api_key : Text
  pub binance_secret_key : Text
  pub binance_base_url : Text
  pub binance_recv_window_ms : ℕ
  pub binance_dry_run : Bool
  pub webhook_async_execution : Bool
  pub executor_workers : ℕ
  pub executor_queue_size : ℕ
  pub allowed_symbols : Text
  pub min_order_quantity : Decimal
  pub max_order_quantity : Decimal

pub data Method : Type 0 where
  http_get http_post : Method

pub record Request : Type 0 where
  pub method : Method
  pub path : Text
  pub params : List (Text × Json)

-- `json` is none where `response.json()` raises `ValueError`.
pub record Response : Type 0 where
  pub status_code : ℕ
  pub retry_after : Option Text
  pub json : Option Json

-- How one call of `httpx2.AsyncClient.request` ends.
pub data Transport : Type 0 where
  connect_error timeout http_error : Transport
  response : Response → Transport

pub record Host : Type 0 where
  pub settings : Settings
  -- the exchange: its answer to a request, after those that were sent before
  pub reply : List Request → Request → Transport
  -- whether the n-th commit fails with an error of the database other than a constraint
  pub commit_fails : ℕ → Bool
  -- `hashlib.sha256(s.encode()).hexdigest()`, and the HMAC of an encoded query
  pub sha256_hex : Text → Text
  pub hmac_hex : Text → List (Text × Json) → Text
  -- `Decimal(s)`, `str(d)` of a decimal, `int(s)`, `str(x)` of a JSON value that is no string
  pub decimal_of_str : Text → Option Decimal
  pub str_of_decimal : Decimal → Text
  pub int_of_str : Text → Option ℤ
  pub repr : Json → Text
  -- `int(x)` of a float that is no integer, by its text
  pub trunc_float : Text → Option ℤ
  -- `str.upper` on a character beyond ASCII, `str.lower`
  pub upper_char : ℕ → Text
  pub lower : Text → Text
  -- `httpx2.URL(url).host`
  pub url_host : Text → Text
  -- `urllib.parse.urlparse`
  pub urlparse : Text → ParsedUrl
