-- ===== src/BinanceClient/Calls.antt =====
-- What the calls of the client send, and what they leave alone.
use crypto_auto_trader.Base.{◌≡◌, refl, Bool, List}
use crypto_auto_trader.Text.{Text}
use crypto_auto_trader.Numbers.{Decimal}
use crypto_auto_trader.Json.{Json}
use crypto_auto_trader.Host.{Host, Method, http_get, http_post}
use crypto_auto_trader.World.{World, ◌>>=◌, send}
use crypto_auto_trader.World.Places.{
  Places, places_rules, Places-then, Places-send, Places-send_get,
}
use crypto_auto_trader.BinanceClient.{
  Client, request, place_market_order, get_order, ping, get_server_time,
}
use crypto_auto_trader.World.Queue.{LeavesDb, db_rules}

module _ (host : Host) (client : Client) where
  Places-request_get :
      (path : Text) (params : List (Text × Json)) (signed : Bool)
      → Places 0 (request host client http_get path params signed)
  unfolding request
  Places-request_get path params signed = search (places_rules, Places-send_get)

  Places-request_post :
      (path : Text) (params : List (Text × Json)) (signed : Bool)
      → Places 1 (request host client http_post path params signed)
  unfolding request
  Places-request_post path params signed = search (places_rules, Places-then, Places-send)

  pub Places-get_order :
      (symbol client_order_id : Text) → Places 0 (get_order host client symbol client_order_id)
  unfolding get_order
  Places-get_order symbol client_order_id = search (places_rules, Places-request_get)

  pub Places-ping : Places 0 (ping host client)
  unfolding ping
  Places-ping = search (places_rules, Places-request_get)

  pub Places-get_server_time : Places 0 (get_server_time host client)
  unfolding get_server_time
  Places-get_server_time = search (places_rules, Places-request_get)

  LeavesDb-request :
      (method : Method) (path : Text) (params : List (Text × Json)) (signed : Bool)
      → LeavesDb (request host client method path params signed)
  unfolding request
  LeavesDb-request method path params signed = search db_rules

  pub LeavesDb-ping : LeavesDb (ping host client)
  unfolding ping
  LeavesDb-ping = search (db_rules, LeavesDb-request)

  pub LeavesDb-get_server_time : LeavesDb (get_server_time host client)
  unfolding get_server_time
  LeavesDb-get_server_time = search (db_rules, LeavesDb-request)

  pub Places-place_market_order :
      (symbol side : Text) (quantity : Decimal) (client_order_id : Text)
      → Places 1 (place_market_order host client symbol side quantity client_order_id)
  unfolding place_market_order
  Places-place_market_order symbol side quantity client_order_id =
      search (places_rules, Places-then, Places-request_post)

  pub db-get_order :
      (symbol client_order_id : Text) (w : World)
      → (get_order host client symbol client_order_id w).1.db ≡ w.db
  unfolding get_order request send ◌>>=◌
  db-get_order symbol client_order_id w = refl
