-- ===== src/Queries/Ownership.antt =====
-- What a user sees of the trades.
use crypto_auto_trader.Base.{
  ℕ, ◌≤◌, ◌≡◌, true, ◌&&◌, Option, some, List, [], ◌∷◌, arith, ◌==◌, All, select, length,
  length-take-le,
}
use crypto_auto_trader.Models.{User, Trade, TradeStatus}
use crypto_auto_trader.Store.{Db, find, has_id}
use crypto_auto_trader.Store.Order.{All-take, All-drop, All-order_by}
use crypto_auto_trader.Queries.{
  in_status, is_listed, newer, list_trades_for_user, get_trade_for_user,
}

listed_rows :
    (user_id : ℕ) (status : Option TradeStatus) (ts : List Trade)
    → All
        (λ t. (t.user_id ≡ user_id) × (in_status status t ≡ true))
        (select (is_listed user_id status) ts)
listed_rows user_id status [] = tt
listed_rows user_id status (t ∷ ts) = ground (arith, listed_rows user_id status ts)

owned :
    (user : User) (trade_id : ℕ) (ts : List Trade) (t : Trade)
    → find (λ (x : Trade). has_id trade_id x && x.user_id == user.id) ts ≡ some t
    → (t.id ≡ trade_id) × (t.user_id ≡ user.id)
owned user trade_id [] t h = cc
owned user trade_id (x ∷ ts) t h = ground (arith, owned user trade_id ts t)

-- Every trade on a page belongs to the user and is in the status that was asked for, if one was,
-- and the page holds `limit` trades at most.
list_trades_for_user_owned :
    (user : User) (limit offset : ℕ) (status : Option TradeStatus) (db : Db)
    → let page = (list_trades_for_user user limit offset status db).0 in
      All (λ t. (t.user_id ≡ user.id) × (in_status status t ≡ true)) page × (length page ≤ limit)
unfolding list_trades_for_user
list_trades_for_user_owned user limit offset status db = (
  All-take _ limit _
      (All-drop _ offset _ (All-order_by newer _ _ (listed_rows user.id status db.trades))),
  length-take-le limit _,
)

-- A trade that is found by its id for a user has that id and belongs to that user.
get_trade_for_user_owned :
    (user : User) (trade_id : ℕ) (db : Db) (t : Trade)
    → get_trade_for_user user trade_id db ≡ some t
    → (t.id ≡ trade_id) × (t.user_id ≡ user.id)
unfolding get_trade_for_user
get_trade_for_user_owned user trade_id db t h = owned user trade_id db.trades t h
