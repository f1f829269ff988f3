-- ===== src/Store/Laws.antt =====
-- What an INSERT that is not refused has done.
use crypto_auto_trader.Base.{◌+◌, ◌≡◌, true, false, some, [], ◌∷◌, ◌++◌, arith, any}
use crypto_auto_trader.Text.{text_eq}
use crypto_auto_trader.Models.{User, Trade}
use crypto_auto_trader.Store.{Db, trade_conflicts, user_exists, insert_trade, insert_user}

pub insert_trade_inv :
    (t row : Trade) (db db' : Db)
    → insert_trade t db ≡ some (row, db')
    → (row ≡ record t { id = db.next_trade_id })
      × (db'.trades ≡ db.trades ++ row ∷ [])
      × (db'.next_trade_id ≡ db.next_trade_id + 1)
      × (db'.users ≡ db.users)
      × (any (trade_conflicts t) db.trades ≡ false)
      × (user_exists t.user_id db ≡ true)
unfolding insert_trade
insert_trade_inv t row db db' h = ground arith

pub insert_user_inv :
    (u row : User) (db db' : Db)
    → insert_user u db ≡ some (row, db')
    → (row ≡ record u { id = db.next_user_id })
      × (db'.users ≡ db.users ++ row ∷ [])
      × (db'.trades ≡ db.trades)
      × (db'.next_trade_id ≡ db.next_trade_id)
      × (any (λ (v : User). text_eq u.email v.email) db.users ≡ false)
unfolding insert_user
insert_user_inv u row db db' h = ground arith
