-- ===== src/Queries.antt =====
-- The queries behind `GET /trades` (app/services/trading_service.py) and the routes of
-- app/api/routes/trades.py. The caller is the user that the bearer token names.
pub mod Ownership
pub mod Pages
use crypto_auto_trader.Base.{
  ℕ, Bool, true, ◌&&◌, ◌||◌, Option, none, some, List, [], ◌∷◌, ◌++◌, ltb, ◌==◌, if◌then◌else◌,
  select, take, drop, length,
}
use crypto_auto_trader.Text.{Text, text}
use crypto_auto_trader.Numbers.{digits}
use crypto_auto_trader.Models.{User, Trade, TradeStatus, status_eq}
use crypto_auto_trader.Errors.{AppErrorClass, Exc, Result, ok, err}
use crypto_auto_trader.Store.{Db, order_by, find, has_id}
use crypto_auto_trader.Host.{Host}
use crypto_auto_trader.World.{World, Exec, pure, raise, gets, ◌>>=◌, ◌>>◌}
use crypto_auto_trader.BinanceClient.{Client}
use crypto_auto_trader.Reconciliation.{reconcile_trade}

abbrev pub in_status : Option TradeStatus → Trade → Bool
in_status none t = true
in_status (some s) t = status_eq t.status s

-- The WHERE clause of the list.
abbrev pub is_listed : ℕ → Option TradeStatus → Trade → Bool
is_listed user_id status t = t.user_id == user_id && in_status status t

-- `ORDER BY created_at DESC, id DESC`
abbrev pub newer : Trade → Trade → Bool
newer a b = ltb b.created_at a.created_at || (a.created_at == b.created_at && ltb b.id a.id)

-- `list_trades_for_user`: the page, and the number of rows without the page.
unfoldable pub list_trades_for_user : User → ℕ → ℕ → Option TradeStatus → Db → List Trade × ℕ
list_trades_for_user user limit offset status db =
    let rows = select (is_listed user.id status) db.trades in
    (take limit (drop offset (order_by newer rows)), length rows)

-- `get_trade_for_user`
unfoldable pub get_trade_for_user : User → ℕ → Db → Option Trade
get_trade_for_user user trade_id db =
    find (λ (t : Trade). has_id trade_id t && t.user_id == user.id) db.trades

abbrev pub trade_or_404 : ℕ → Option Trade → Exec Trade
trade_or_404 trade_id none = raise (
    Exc.app AppErrorClass.resource_not_found
      (text "Trade " ++ (digits trade_id ++ text " was not found.")))
trade_or_404 trade_id (some t) = pure t

-- The route `GET /trades/{trade_id}`.
unfoldable pub get_trade : User → ℕ → Exec Trade
get_trade user trade_id = do
  found ← gets (λ w. get_trade_for_user user trade_id w.db)
  trade_or_404 trade_id found

-- The route `POST /trades/{trade_id}/reconcile`.
unfoldable pub reconcile : Host → Client → User → ℕ → Exec Trade
reconcile host client user trade_id = do
  found ← gets (λ w. get_trade_for_user user trade_id w.db)
  trade ← trade_or_404 trade_id found
  reconcile_trade host client trade
