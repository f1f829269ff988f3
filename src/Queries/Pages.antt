-- ===== src/Queries/Pages.antt =====
-- The pages of a listing, one after another.
use crypto_auto_trader.Base.{
  ℕ, zero, suc, ◌+◌, ◌*◌, ◌≤◌, ◌≡◌, refl, ◌∙◌, true, false, Option, List, [], ◌++◌, arith, take,
  take-all, take-drop_append, select,
}
use mathlib.Core.List.{Perm}
use crypto_auto_trader.Models.{User, Trade, TradeStatus}
use crypto_auto_trader.Store.{Db, order_by}
use crypto_auto_trader.Store.Order.{length-order_by, order_by-perm, IsOrdered, IsOrdered-order_by}
use crypto_auto_trader.Queries.{is_listed, newer, list_trades_for_user}

newer_asym : (a b : Trade) → newer a b ≡ true → newer b a ≡ false
newer_asym a b h = ground arith

newer_trans : (a b c : Trade) → newer a b ≡ false → newer b c ≡ false → newer a c ≡ false
newer_trans a b c h k = ground arith

module _ (user : User) (limit : ℕ) (status : Option TradeStatus) (db : Db) where
  abbrev listed : List Trade
  listed = select (is_listed user.id status) db.trades

  -- The first `n` pages, each fetched at the offset behind the one before.
  unfoldable pub fetch : ℕ → List Trade
  fetch zero = []
  fetch (suc n) = fetch n ++ (list_trades_for_user user limit (n * limit) status db).0

  fetch_lem : (n : ℕ) → fetch n ≡ take (n * limit) (order_by newer listed)
  unfolding fetch list_trades_for_user
  fetch_lem zero = let same : 0 * limit ≡ 0 = omega arith in rw same refl
  fetch_lem (suc n) =
      let same : suc n * limit ≡ n * limit + limit = omega arith in
      rw (fetch_lem n, same) (take-drop_append (n * limit) limit (order_by newer listed))

-- As many pages as the total asks for hold the trades of the caller, in the status asked for, each
-- as often as the table has it, and the newest first over the pages.
pub pages_cover :
    (user : User) (limit n : ℕ) (status : Option TradeStatus) (db : Db)
    → (list_trades_for_user user limit 0 status db).1 ≤ n * limit
    → Perm (fetch user limit status db n) (select (is_listed user.id status) db.trades)
      × IsOrdered newer (fetch user limit status db n)
unfolding list_trades_for_user
pages_cover user limit n status db enough =
    let rows = listed user limit status db in
    let all_fetched : fetch user limit status db n ≡ order_by newer rows =
      fetch_lem user limit status db n
      ∙ take-all (n * limit) (order_by newer rows) (omega (arith, length-order_by newer rows)) in
    rw all_fetched (order_by-perm newer rows, IsOrdered-order_by newer newer_asym newer_trans rows)
