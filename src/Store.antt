-- ===== src/Store.antt =====
-- The two tables as PostgreSQL keeps them: unique indexes on `users.email`, `trades.signal_id` and
-- `trades.client_order_id`, the foreign key `trades.user_id`, and the statements that the program
-- runs. Primary keys come from a sequence.
pub mod Laws
pub mod Order
pub mod Rows
use crypto_auto_trader.Base.{
  ℕ, ◌+◌, Bool, true, ◌&&◌, ◌||◌, Option, none, some, List, [], ◌∷◌, ◌++◌, ◌==◌, if◌then◌else◌, any,
}
use crypto_auto_trader.Text.{Text, text_eq}
use crypto_auto_trader.Models.{User, Trade}

pub record Db : Type 0 where
  pub users : List User
  pub trades : List Trade
  pub next_user_id : ℕ
  pub next_trade_id : ℕ

-- `SELECT ... WHERE p`, with at most one row by a key
abbrev pub find {ℓ} : {A : Type ℓ} → (A → Bool) → List A → Option A
find p [] = none
find p (x ∷ xs) = if p x then some x else find p xs

-- `UPDATE ... SET f WHERE p`
abbrev pub update_where {ℓ} : {A : Type ℓ} → (A → Bool) → (A → A) → List A → List A
update_where p f [] = []
update_where p f (x ∷ xs) = (if p x then f x else x) ∷ update_where p f xs

-- The `rowcount` of an UPDATE.
abbrev pub count_where {ℓ} : {A : Type ℓ} → (A → Bool) → List A → ℕ
count_where p [] = 0
count_where p (x ∷ xs) = (if p x then 1 else 0) + count_where p xs

-- The row goes in front of the first one that it precedes: a stable ORDER BY.
abbrev pub insert_by {ℓ} : {A : Type ℓ} → (A → A → Bool) → A → List A → List A
insert_by before x [] = x ∷ []
insert_by before x (y ∷ ys) = if before y x then y ∷ insert_by before x ys else x ∷ y ∷ ys

abbrev pub order_by {ℓ} : {A : Type ℓ} → (A → A → Bool) → List A → List A
order_by before [] = []
order_by before (x ∷ xs) = insert_by before x (order_by before xs)

abbrev pub has_id : ℕ → Trade → Bool
has_id k t = t.id == k

abbrev pub trade_conflicts : Trade → Trade → Bool
trade_conflicts t row =
    text_eq t.signal_id row.signal_id || text_eq t.client_order_id row.client_order_id

abbrev pub user_exists : ℕ → Db → Bool
user_exists k db = any (λ (u : User). u.id == k) db.users

-- `INSERT INTO trades`; `none` is an `IntegrityError`.
unfoldable pub insert_trade : Trade → Db → Option (Trade × Db)
insert_trade t db =
    let row = record t { id = db.next_trade_id } in
    if any (trade_conflicts t) db.trades
    then none
    else if user_exists t.user_id db
    then some
        (row, record db { trades = db.trades ++ row ∷ []; next_trade_id = db.next_trade_id + 1 })
    else none

-- `INSERT INTO users`; `none` is an `IntegrityError`.
unfoldable pub insert_user : User → Db → Option (User × Db)
insert_user u db =
    let row = record u { id = db.next_user_id } in
    if any (λ (v : User). text_eq u.email v.email) db.users
    then none
    else some (row, record db { users = db.users ++ row ∷ []; next_user_id = db.next_user_id + 1 })

-- `UPDATE trades SET ... WHERE id = k`, as a flush of a changed row does.
unfoldable pub update_trade : ℕ → (Trade → Trade) → Db → Db
update_trade k f db = record db { trades = update_where (has_id k) f db.trades }
