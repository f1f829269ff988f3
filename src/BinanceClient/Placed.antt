-- ===== src/BinanceClient/Placed.antt =====
-- What an order that came back had sent.
use crypto_auto_trader.Base.{
  ◌≡◌, refl, sym, ◌∙◌, ap, true, some, ℕ, arith, List, [], ◌∷◌, ◌++◌, if◌then◌else◌,
}
use crypto_auto_trader.Base.Int.{pos}
use crypto_auto_trader.Text.{Text, text}
use crypto_auto_trader.Numbers.{Decimal, format_decimal}
use crypto_auto_trader.Json.{Json, Fields}
use crypto_auto_trader.Errors.{Result, ok}
use crypto_auto_trader.Host.{Host, Request, http_post}
use crypto_auto_trader.World.{World, lift, send}
use crypto_auto_trader.World.Runs.{bind_inv, bind-gets}
use crypto_auto_trader.Binance.{BinanceOrderResult, or_value_error}
use crypto_auto_trader.BinanceClient.{
  Client, signed_params, order_params, request, place_market_order,
}

-- The state after one more request.
abbrev pub with_request : World → Request → World
with_request w r = record w { requests = w.requests ++ r ∷ [] }

module _ (host : Host) (client : Client) where
  lift_inv :
      {A : Type 0} (r : Result A) (a : A) (w v : World)
      → lift r w ≡ (ok a, v)
      → (r ≡ ok a) × (v ≡ w)
  unfolding lift
  lift_inv r a w v h = (ap (λ x. x.0) h, sym (ap (λ x. x.1) h))

  -- A signed POST at a time.
  abbrev posted : Text → List (Text × Json) → ℕ → Request
  posted path params now = record {
    method = http_post;
    path = path;
    params = signed_params host client now params;
  }

  -- What an order request says before it is signed, its quantity in plain notation.
  abbrev pub order_body : Text → Text → Text → Text → ℕ → List (Text × Json)
  order_body symbol side quantity client_order_id now =
      (text "symbol", Json.str symbol)
      ∷ (text "side", Json.str side)
      ∷ (text "type", Json.str (text "MARKET"))
      ∷ (text "quantity", Json.str quantity)
      ∷ (text "newClientOrderId", Json.str client_order_id)
      ∷ (text "newOrderRespType", Json.str (text "FULL"))
      ∷ (text "timestamp", Json.int (pos now))
      ∷ (text "recvWindow", Json.int (pos client.recv_window))
      ∷ []

  -- The request for a market order, signed with the client's key.
  abbrev pub order_sent : Text → Text → Text → Text → ℕ → Request
  order_sent symbol side quantity client_order_id now =
      let body = order_body symbol side quantity client_order_id now in
      record {
        method = http_post;
        path = if client.dry_run then text "/api/v3/order/test" else text "/api/v3/order";
        params = body ++ (text "signature", Json.str (host.hmac_hex client.secret_key body)) ∷ [];
      }

  order_sent_lem :
      (symbol side quantity client_order_id : Text) (now : ℕ)
      → posted
          (if client.dry_run then text "/api/v3/order/test" else text "/api/v3/order")
          (order_params host symbol side quantity client_order_id)
          now
        ≡ order_sent symbol side quantity client_order_id now
  unfolding signed_params order_params
  order_sent_lem symbol side quantity client_order_id now = refl

  request_inv :
      (path : Text) (params : List (Text × Json)) (fields : Fields) (w v : World)
      → request host client http_post path params true w ≡ (ok fields, v)
      → v ≡ with_request w (posted path params w.clock)
  unfolding request send
  request_inv path params fields w v h =
      let (_, w1, sent, lifted) = bind_inv _ _ w v fields (sym (bind-gets _ _ w) ∙ h) in
      let (_, same) = lift_inv _ fields w1 v lifted in same ∙ sym (ap (λ x. x.1) sent)

  plain_quantity :
      (quantity : Decimal) (q : Text)
      → or_value_error (format_decimal quantity) ≡ ok q
      → format_decimal quantity ≡ some q
  plain_quantity quantity q h = ground arith

  pub place_market_order_inv :
      (symbol side : Text) (quantity : Decimal) (client_order_id : Text)
      (result : BinanceOrderResult) (w v : World)
      → place_market_order host client symbol side quantity client_order_id w ≡ (ok result, v)
      → (q : Text) × (format_decimal quantity ≡ some q)
        × (v ≡ with_request w (order_sent symbol side q client_order_id w.clock))
  unfolding place_market_order
  place_market_order_inv symbol side quantity client_order_id result w v h =
      let (_, w1, asserted, h1) = bind_inv _ _ w v result h in
      let (q, w2, formatted, h2) = bind_inv _ _ w1 v result h1 in
      let (fields, w3, sent, h3) = bind_inv _ _ w2 v result h2 in
      let (_, same1) = lift_inv _ _ w w1 asserted in
      let (plain, same2) = lift_inv _ _ w1 w2 formatted in
      let (_, same3) = lift_inv _ _ w3 v h3 in
      let after = request_inv _ _ fields w2 w3 sent in
      (
        q,
        plain_quantity quantity q plain,
        same3
            ∙ after
            ∙ ap (with_request w2) (order_sent_lem symbol side q client_order_id w2.clock)
            ∙ ap (λ (x : World). with_request x (order_sent symbol side q client_order_id x.clock))
                (same2 ∙ same1),
      )
