-- ===== src/Tests/Data.antt =====
-- A deployment for the runs below: an exchange that never answers an order and finds every order
-- that it is asked about, one account, and one trade.
use crypto_auto_trader.Base.{true, false, none, some, List, [], ◌∷◌}
use crypto_auto_trader.Base.Int.{pos, negsuc}
use crypto_auto_trader.Text.{Text, text, text_eq}
use crypto_auto_trader.Numbers.{Decimal}
use crypto_auto_trader.Json.{Json, Fields}
use crypto_auto_trader.Models.{OrderSide, TradeStatus, User, Trade}
use crypto_auto_trader.Errors.{BinanceErrorClass, BinanceError}
use crypto_auto_trader.Payload.{RawPayload, Payload}
use crypto_auto_trader.Host.{Settings, Method, Request, Response, Transport, Host}
use crypto_auto_trader.World.{World}
use crypto_auto_trader.BinanceClient.{Client}
use crypto_auto_trader.Security.{Crypto, Decoded}

-- 0.5, 0.001 and 10
abbrev pub half : Decimal
half = Decimal.finite false 5 (negsuc 0)

abbrev pub settings : Settings
settings = record {
  app_name = text "app";
  environment = text "local";
  log_level = text "info";
  database_url = text "postgresql+asyncpg://h/d";
  db_pool_size = 5;
  db_max_overflow = 10;
  db_pool_timeout_seconds = 30;
  db_echo = false;
  jwt_secret = text "jwt";
  access_token_expire_minutes = 60;
  webhook_secret = text "hook";
  webhook_trade_owner_email = text "a@b";
  binance_api_key = text "key";
  binance_secret_key = text "secret";
  binance_base_url = text "t";
  binance_recv_window_ms = 5000;
  binance_dry_run = false;
  webhook_async_execution = true;
  executor_workers = 1;
  executor_queue_size = 2;
  allowed_symbols = text "BTCUSDT";
  min_order_quantity = Decimal.finite false 1 (negsuc 2);
  max_order_quantity = Decimal.finite false 10 (pos 0);
}

abbrev pub order_fields : Fields
order_fields = Fields.field (text "orderId") (Json.int (pos 7)) Fields.end

abbrev pub no_order_response : Response
no_order_response = record {
  status_code = 400;
  retry_after = none;
  json = some (Json.obj (Fields.field (text "code") (Json.int (negsuc 2012)) Fields.end));
}

abbrev pub found_response : Response
found_response = record {
  status_code = 200;
  retry_after = none;
  json = some (Json.obj order_fields);
}

-- By the method of the request: an order times out, a query is answered.
abbrev pub answer_with : Transport → Request → Transport
answer_with to_query r = elim r.method [
  | Method.http_post ↦ Transport.timeout
  | Method.http_get ↦ to_query
]

abbrev pub host_with : Transport → Host
host_with to_query = record {
  settings = settings;
  reply = λ before r. answer_with to_query r;
  commit_fails = λ n. false;
  sha256_hex = λ s. s;
  hmac_hex = λ key params. key;
  decimal_of_str = λ s. some half;
  str_of_decimal = λ d. text "0.5";
  int_of_str = λ s. some (pos 7);
  repr = λ j. text "repr";
  trunc_float = λ s. none;
  upper_char = λ c. c ∷ [];
  lower = λ s. s;
  url_host = λ s. text "testnet.binance.vision";
  urlparse = λ s. record { scheme = text "https"; hostname = some (text "testnet.binance.vision") };
}

abbrev pub host : Host
host = host_with (Transport.response found_response)

abbrev pub client : Client
client = record {
  api_key = text "key";
  secret_key = text "secret";
  base_url = text "t";
  recv_window = 5000;
  dry_run = false;
}

abbrev pub alice : User
alice = record {
  id = 1;
  email = text "a@b";
  password_hash = text "pw";
  is_active = true;
  created_at = 0;
  updated_at = 0;
}

abbrev pub pending : Trade
pending = record {
  id = 1;
  user_id = 1;
  signal_id = text "s1";
  client_order_id = text "cat-s1";
  symbol = text "BTCUSDT";
  side = OrderSide.buy;
  order_type = text "MARKET";
  quantity = half;
  status = TradeStatus.pending;
  binance_order_id = none;
  binance_status = none;
  executed_quantity = none;
  cumulative_quote_quantity = none;
  error_code = none;
  error_message = none;
  submitted_at = none;
  reconciled_at = none;
  created_at = 0;
  updated_at = 0;
}

abbrev pub payload_of : Text → Payload
payload_of signal_id = record {
  signal_id = signal_id;
  symbol = text "BTCUSDT";
  action = OrderSide.buy;
  quantity = half;
  secret = some (text "hook");
}

abbrev pub raw : RawPayload
raw = record {
  signal_id = text " s2";
  symbol = text "btcusdt ";
  action = text "buy";
  quantity = half;
  secret = some (text "hook");
}

abbrev pub world_of : List User → List Trade → World
world_of users trades = record {
  db = record { users = users; trades = trades; next_user_id = 2; next_trade_id = 2 };
  owner = some 1;
  queue = [];
  requests = [];
  commits = 0;
  clock = 90000;
  request_id = text "r1";
}

-- One account with one trade that was never sent.
abbrev pub world : World
world = world_of (alice ∷ []) (pending ∷ [])

abbrev pub lost : BinanceError
lost = record {
  class = BinanceErrorClass.uncertain;
  message = text "lost";
  code = Json.null;
  status_code = none;
  retry_after_seconds = none;
}

-- A password is its own hash.
abbrev pub crypto : Crypto
crypto = record {
  hashpw = λ p. p;
  checkpw = λ p h. some (text_eq p h);
  encode = λ c secret. c.sub;
  decode = λ token secret now. Decoded.invalid;
  fresh_hex = text "f";
}
