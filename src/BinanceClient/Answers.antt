-- ===== src/BinanceClient/Answers.antt =====
-- When the lookup of an order reports that there is none.
use crypto_auto_trader.Base.{
  ◌≡◌, refl, Bool, true, false, not, ◌&&◌, Option, none, some, arith, leb, Bool-cases, inl, inr,
}
use crypto_auto_trader.Json.{Json, equals_int}
use crypto_auto_trader.Errors.{Result, ok, err}
use crypto_auto_trader.Host.{Response, Transport, Host}
use crypto_auto_trader.Binance.{
  handle_response, handle_transport, error_code, decoded, order_does_not_exist_code, some_result,
  BinanceOrderResult,
}
use crypto_auto_trader.BinanceClient.{found_order}

-- The answer "order does not exist": a refusal whose body has the code -2013.
abbrev pub says_no_order : Transport → Bool
says_no_order (Transport.response r) =
    leb 400 r.status_code
    && not (leb 500 r.status_code)
    && equals_int (error_code r) order_does_not_exist_code
says_no_order _ = false

abbrev pub is_no_order : Result (Option BinanceOrderResult) → Bool
is_no_order (ok none) = true
is_no_order _ = false

is_no_order-some : (r : Result BinanceOrderResult) → is_no_order (some_result r) ≡ false
is_no_order-some (ok a) = refl
is_no_order-some (err e) = refl

decoded-found_order :
    (host : Host) (j : Option Json) → is_no_order (found_order host (decoded host j)) ≡ false
unfolding found_order
decoded-found_order host none = refl
decoded-found_order host (some (Json.obj fields)) = is_no_order-some _
decoded-found_order host (some Json.null) = is_no_order-some _
decoded-found_order host (some _) = is_no_order-some _

below_400 :
    (host : Host) (r : Response)
    → leb 400 r.status_code ≡ false
    → handle_response host r ≡ decoded host r.json
unfolding handle_response
below_400 host r h = ground arith

-- The lookup of an order reports "there is no order" exactly when the exchange refused the query
-- with the code -2013; a query that got no answer, or any other one, is never read so.
pub no_order_iff :
    (host : Host) (t : Transport)
    → is_no_order (found_order host (handle_transport host t)) ≡ says_no_order t
unfolding handle_transport handle_response found_order
no_order_iff host Transport.connect_error = refl
no_order_iff host Transport.timeout = refl
no_order_iff host Transport.http_error = refl
no_order_iff host (Transport.response r) = elim (Bool-cases (leb 500 r.status_code)) [
  | inl broken ↦ rw broken (ground arith)
  | inr up ↦ elim (Bool-cases (leb 400 r.status_code)) [
    | inl refused ↦ ground arith
    | inr fine ↦ rw (below_400 host r fine, decoded-found_order, fine)
  ]
]
