-- ===== src/BinanceClient.antt =====
-- app/services/binance_service.py: the client and its calls. A request goes out by `send`; what
-- comes back is an argument of the model (`Host.reply`), and `Binance` classifies it.
pub mod Calls
pub mod Answers
pub mod Placed
use crypto_auto_trader.Base.{
  ℕ, suc, ◌*◌, Bool, true, false, not, ◌&&◌, ◌||◌, Option, none, some, List, [], ◌∷◌, ◌++◌, leb,
  ◌==◌, if◌then◌else◌,
}
use crypto_auto_trader.Base.Int.{ℤ, pos, negsuc}
use crypto_auto_trader.Text.{Text, text, text_in, rstrip}
use crypto_auto_trader.Numbers.{Decimal, zero_decimal, format_decimal}
use crypto_auto_trader.Json.{
  Json, Fields, get_field, get_field_or, has_field, equals_int, int_in, is_null, truthy,
}
use crypto_auto_trader.Errors.{BinanceErrorClass, BinanceError, is_rejected, Exc, Result, ok, err}
use crypto_auto_trader.Binance.{
  BinanceOrderResult, order_does_not_exist_code, or_value_error, some_result, handle_transport,
  from_payload, int_of,
}
use crypto_auto_trader.Config.{allowed_binance_hosts}
use crypto_auto_trader.Host.{
  Settings, Method, http_get, http_post, Request, Response, Transport, Host,
}
use crypto_auto_trader.World.{World, Exec, pure, raise, lift, gets, attempt, send, ◌>>=◌, ◌>>◌}

pub record Client : Type 0 where
  pub api_key : Text
  pub secret_key : Text
  pub base_url : Text
  pub recv_window : ℕ
  pub dry_run : Bool

-- `value or default`
abbrev or_text : Option Text → Text → Text
or_text (some (c ∷ s)) default = c ∷ s
or_text _ default = default

abbrev or_number : Option ℕ → ℕ → ℕ
or_number (some (suc n)) default = suc n
or_number _ default = default

abbrev or_bool : Option Bool → Bool → Bool
or_bool (some b) default = b
or_bool none default = default

abbrev checked_client : Client → Result (Unit {0}) → Result Client
checked_client client (ok _) = ok client
checked_client client (err e) = err e

module _ (host : Host) where
  -- `_signed_params`: the signature covers every other parameter, so it is added last.
  unfoldable pub signed_params : Client → ℕ → List (Text × Json) → List (Text × Json)
  signed_params client now params =
      let unsigned =
        params
        ++ (text "timestamp", Json.int (pos now))
          ∷ (text "recvWindow", Json.int (pos client.recv_window))
          ∷ [] in
      unsigned ++ (text "signature", Json.str (host.hmac_hex client.secret_key unsigned)) ∷ []

  -- `_request`
  unfoldable pub request : Client → Method → Text → List (Text × Json) → Bool → Exec Fields
  unfolding signed_params
  request client method path params signed = do
    now ← gets (λ w. w.clock)
    t ← send host (record {
      method = method;
      path = path;
      params = if signed then signed_params client now params else params;
    })
    lift (handle_transport host t)

  -- `_assert_testnet`
  unfoldable pub assert_testnet : Client → Result (Unit {0})
  assert_testnet client =
      if text_in (host.lower (host.url_host client.base_url)) allowed_binance_hosts
      then ok tt
      else err Exc.runtime_error

  -- `BinanceClient.__init__`; an argument that is None, or falsy, gives way to the setting.
  unfoldable pub make_client :
      Option Text → Option Text → Option Text → Option ℕ → Option Bool → Result Client
  make_client api_key secret_key base_url recv_window dry_run =
      let client : Client = record {
        api_key = or_text api_key host.settings.binance_api_key;
        secret_key = or_text secret_key host.settings.binance_secret_key;
        base_url = rstrip 47 (or_text base_url host.settings.binance_base_url);
        recv_window = or_number recv_window host.settings.binance_recv_window_ms;
        dry_run = or_bool dry_run host.settings.binance_dry_run;
      } in
      checked_client client (assert_testnet client)

  -- The body of an order request.
  unfoldable pub order_params : Text → Text → Text → Text → List (Text × Json)
  order_params symbol side quantity client_order_id =
      (text "symbol", Json.str symbol)
      ∷ (text "side", Json.str side)
      ∷ (text "type", Json.str (text "MARKET"))
      ∷ (text "quantity", Json.str quantity)
      ∷ (text "newClientOrderId", Json.str client_order_id)
      ∷ (text "newOrderRespType", Json.str (text "FULL"))
      ∷ []

  unfoldable pub dry_run_result : Text → Text → Text → Fields → BinanceOrderResult
  dry_run_result symbol side client_order_id payload = record {
    order_id = none;
    client_order_id = client_order_id;
    symbol = symbol;
    side = side;
    status = text "DRY_RUN_VALIDATED";
    executed_quantity = zero_decimal;
    cumulative_quote_quantity = zero_decimal;
    raw = payload;
  }

  -- `place_market_order`
  unfoldable pub place_market_order :
      Client → Text → Text → Decimal → Text → Exec BinanceOrderResult
  place_market_order client symbol side quantity client_order_id = do
    lift (assert_testnet client)
    plain_quantity ← lift (or_value_error (format_decimal quantity))
    payload ←
        request client http_post
          (if client.dry_run then text "/api/v3/order/test" else text "/api/v3/order")
          (order_params symbol side plain_quantity client_order_id) true
    lift (
        if client.dry_run
        then ok (dry_run_result symbol side client_order_id payload)
        else from_payload host payload)

  -- The `except` clause of `get_order`.
  unfoldable pub found_order : Result Fields → Result (Option BinanceOrderResult)
  found_order (ok payload) = some_result (from_payload host payload)
  found_order (err (Exc.binance e)) =
      if is_rejected e.class && equals_int e.code order_does_not_exist_code
      then ok none
      else err (Exc.binance e)
  found_order (err e) = err e

  -- `get_order`
  unfoldable pub get_order : Client → Text → Text → Exec (Option BinanceOrderResult)
  get_order client symbol client_order_id = do
    r ← attempt (
        request client http_get (text "/api/v3/order")
          ((text "symbol", Json.str symbol)
            ∷ (text "origClientOrderId", Json.str client_order_id)
            ∷ [])
          true)
    lift (found_order r)

  abbrev reached : Result Fields → Result Bool
  reached (ok _) = ok true
  reached (err (Exc.binance _)) = ok false
  reached (err e) = err e

  -- `ping`
  unfoldable pub ping : Client → Exec Bool
  ping client = do
    r ← attempt (request client http_get (text "/api/v3/ping") [] false)
    lift (reached r)

  abbrev server_time : Fields → Result ℤ
  server_time payload =
      if has_field (text "serverTime") payload
      then int_of host (get_field (text "serverTime") payload)
      else err Exc.value_error

  -- `get_server_time`; a missing key is a `KeyError`.
  unfoldable pub get_server_time : Client → Exec ℤ
  get_server_time client = do
    payload ← request client http_get (text "/api/v3/time") [] false
    lift (server_time payload)
