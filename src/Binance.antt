-- ===== src/Binance.antt =====
-- app/services/binance_service.py: the client of the exchange. A request goes out by `send`; what
-- comes back is an argument of the model (`Host.reply`), and this file classifies it.
pub mod Outcomes
use crypto_auto_trader.Base.{
  ℕ, suc, ◌*◌, Bool, true, false, not, ◌&&◌, ◌||◌, Option, none, some, List, [], ◌∷◌, ◌++◌, leb,
  ◌==◌, if◌then◌else◌,
}
use crypto_auto_trader.Base.Int.{ℤ, pos, negsuc}
use crypto_auto_trader.Text.{Text, text, text_in, rstrip}
use crypto_auto_trader.Numbers.{Decimal, zero_decimal, format_decimal}
use crypto_auto_trader.Json.{
  Json, Fields, get_field, get_field_or, has_field, equals_int, int_in, is_null, truthy,
}
use crypto_auto_trader.Errors.{BinanceErrorClass, BinanceError, is_rejected, Exc, Result, ok, err}
use crypto_auto_trader.Config.{allowed_binance_hosts}
use crypto_auto_trader.Host.{
  Settings, Method, http_get, http_post, Request, Response, Transport, Host,
}
use crypto_auto_trader.World.{World, Exec, pure, raise, lift, gets, attempt, send, ◌>>=◌, ◌>>◌}

-- -2013
abbrev pub order_does_not_exist_code : ℤ
order_does_not_exist_code = negsuc 2012

-- -2014, -2015 and -1022: the codes of a bad key or signature
abbrev pub auth_error_codes : List ℤ
auth_error_codes = negsuc 2013 ∷ negsuc 2014 ∷ negsuc 1021 ∷ []

pub record BinanceOrderResult : Type 0 where
  pub order_id : Option ℤ
  pub client_order_id : Text
  pub symbol : Text
  pub side : Text
  pub status : Text
  pub executed_quantity : Decimal
  pub cumulative_quote_quantity : Decimal
  pub raw : Fields

abbrev pub plain_error : BinanceErrorClass → Text → Text → Exc
plain_error c message code = Exc.binance (record {
  class = c;
  message = message;
  code = Json.str code;
  status_code = none;
  retry_after_seconds = none;
})

abbrev dict_or_empty : Option Json → Fields
dict_or_empty (some (Json.obj fields)) = fields
dict_or_empty _ = Fields.end

-- `_error_body`, `_error_code`
abbrev pub error_body : Response → Fields
error_body r = dict_or_empty r.json

abbrev pub error_code : Response → Json
error_code r = get_field (text "code") (error_body r)

abbrev pub or_value_error {ℓ} : {A : Type ℓ} → Option A → Result A
or_value_error none = err Exc.value_error
or_value_error (some a) = ok a

abbrev pub some_result {ℓ} : {A : Type ℓ} → Result A → Result (Option A)
some_result (ok a) = ok (some a)
some_result (err e) = err e

abbrev decimal_or_zero : Option Decimal → Decimal
decimal_or_zero none = zero_decimal
decimal_or_zero (some d) = d

abbrev with_order_id :
    Result (Option ℤ) → (Option ℤ → BinanceOrderResult) → Result BinanceOrderResult
with_order_id (ok n) f = ok (f n)
with_order_id (err e) f = err e

module _ (host : Host) where
  abbrev message_or_default : Response → Json → Text
  message_or_default r (Json.str (c ∷ s)) = c ∷ s
  message_or_default r _ =
      text "Binance returned HTTP " ++ (host.repr (Json.int (pos r.status_code)) ++ text ".")

  -- `_error_message`
  unfoldable pub error_message : Response → Text
  error_message r = message_or_default r (get_field (text "msg") (error_body r))

  -- `_parse_retry_after`
  unfoldable pub parse_retry_after : Option Text → Option ℤ
  parse_retry_after none = none
  parse_retry_after (some []) = none
  parse_retry_after (some (c ∷ s)) = host.int_of_str (c ∷ s)

  abbrev pub decoded : Option Json → Result Fields
  decoded none = err (
      plain_error BinanceErrorClass.uncertain (text "Binance returned an unreadable response.")
        (text "bad_payload"))
  decoded (some (Json.obj fields)) = ok fields
  decoded (some j) = ok (Fields.field (text "result") j Fields.end)

  -- `BinanceClient._handle_response`
  unfoldable pub handle_response : Response → Result Fields
  handle_response r =
      if leb 500 r.status_code
      then err (
          Exc.binance (record {
            class = BinanceErrorClass.uncertain;
            message = text "Binance returned a server error; order status is unknown.";
            code = Json.str (text "server_error");
            status_code = some r.status_code;
            retry_after_seconds = none;
          }))
      else if r.status_code == 429 || r.status_code == 418
      then err (
          Exc.binance (record {
            class = BinanceErrorClass.rate_limit;
            message = text "Binance rate limit exceeded.";
            code = error_code r;
            status_code = some r.status_code;
            retry_after_seconds = parse_retry_after r.retry_after;
          }))
      else if leb 400 r.status_code
      then err (
          Exc.binance (record {
            class =
                if r.status_code == 401
                  || r.status_code == 403
                  || int_in (error_code r) auth_error_codes
                then BinanceErrorClass.auth
                else BinanceErrorClass.rejected;
            message = error_message r;
            code = error_code r;
            status_code = some r.status_code;
            retry_after_seconds = none;
          }))
      else decoded r.json

  -- The `except` clauses of `_request`.
  unfoldable pub handle_transport : Transport → Result Fields
  unfolding handle_response
  handle_transport Transport.connect_error = err (
      plain_error BinanceErrorClass.unavailable (text "Could not reach Binance testnet.")
        (text "connection_error"))
  handle_transport Transport.timeout = err (
      plain_error BinanceErrorClass.uncertain
        (text "Binance did not respond in time; order status is unknown.") (text "timeout"))
  handle_transport Transport.http_error = err (
      plain_error BinanceErrorClass.uncertain
        (text "Binance request failed in transport; order status is unknown.")
        (text "transport_error"))
  handle_transport (Transport.response r) = handle_response r

  -- `int(x)`; a list or a dict is a `TypeError`.
  unfoldable pub int_of : Json → Result ℤ
  int_of (Json.bool b) = ok (if b then pos 1 else pos 0)
  int_of (Json.int n) = ok n
  int_of (Json.real (some n) _) = ok n
  int_of (Json.real none t) = or_value_error (host.trunc_float t)
  int_of (Json.str s) = or_value_error (host.int_of_str s)
  int_of _ = err Exc.value_error

  -- `str(x)`
  abbrev pub str_of : Json → Text
  str_of (Json.str s) = s
  str_of j = host.repr j

  -- `_decimal`: a field that is missing, empty or unreadable counts as 0.
  abbrev decimal_field : Text → Fields → Decimal
  decimal_field k fields =
      let v = get_field_or k (Json.str (text "0")) fields in
      decimal_or_zero (host.decimal_of_str (str_of (if truthy v then v else Json.str (text "0"))))

  abbrev order_id_field : Json → Result (Option ℤ)
  order_id_field Json.null = ok none
  order_id_field j = some_result (int_of j)

  -- `BinanceOrderResult.from_payload`
  unfoldable pub from_payload : Fields → Result BinanceOrderResult
  from_payload payload =
      with_order_id (order_id_field (get_field (text "orderId") payload)) λ order_id. record {
        order_id = order_id;
        client_order_id = str_of (get_field_or (text "clientOrderId") (Json.str []) payload);
        symbol = str_of (get_field_or (text "symbol") (Json.str []) payload);
        side = str_of (get_field_or (text "side") (Json.str []) payload);
        status = str_of (get_field_or (text "status") (Json.str []) payload);
        executed_quantity = decimal_field (text "executedQty") payload;
        cumulative_quote_quantity = decimal_field (text "cummulativeQuoteQty") payload;
        raw = payload;
      }
