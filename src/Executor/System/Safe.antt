-- ===== src/Executor/System/Safe.antt =====
-- The invariant of the interleaved steps.
use crypto_auto_trader.Base.{
  ℕ, ◌+◌, ◌≤◌, ◌<◌, ◌≡◌, refl, true, false, some, List, [], ◌∷◌, ◌++◌, arith, All, any, ap,
}
use crypto_auto_trader.Text.{Text, text_eq, text_eq_iff}
use crypto_auto_trader.Models.{Trade}
use crypto_auto_trader.Store.{Db, has_id, count_where, trade_conflicts, insert_trade}
use crypto_auto_trader.Store.Laws.{insert_trade_inv}
use crypto_auto_trader.World.{World}
use crypto_auto_trader.Executor.System.{System}
use crypto_auto_trader.Executor.System.Counts.{
  rows_for, claims_for, orders_for, rows_for-append, ids-append,
}

-- The keys of the table: no client order id and no primary key is there twice, and the sequence is
-- ahead of the rows.
pub record IsKeyed (db : Db) : Type 0 where
  pub unique : (c : Text) → rows_for c db.trades ≤ 1
  pub ids : (k : ℕ) → count_where (has_id k) db.trades ≤ 1
  pub fresh : All (λ t. t.id < db.next_trade_id) db.trades

-- The orders sent for a client order id, and those about to be sent, are covered by claims.
pub record IsSafe (s : System) : Type 0 where
  pub keyed : IsKeyed s.world.db
  pub once :
      (c : Text)
      → orders_for c s.world.requests + rows_for c s.jobs ≤ claims_for c s.world.db.trades

no_conflict :
    (t : Trade) (c : Text) (ts : List Trade)
    → any (trade_conflicts t) ts ≡ false
    → text_eq t.client_order_id c ≡ true
    → rows_for c ts ≡ 0
no_conflict t c [] h e = refl
no_conflict t c (x ∷ ts) h e = ground (
  arith,
  no_conflict t c ts,
  text_eq_iff t.client_order_id c,
  text_eq_iff x.client_order_id c,
  text_eq_iff t.client_order_id x.client_order_id,
)

absent : (n : ℕ) (ts : List Trade) → All (λ t. t.id < n) ts → count_where (has_id n) ts ≡ 0
absent n [] h = refl
absent n (t ∷ ts) h = ground (arith, absent n ts h.1)

fresh-append :
    (n : ℕ) (ts : List Trade) (t : Trade)
    → All (λ t. t.id < n) ts
    → t.id ≡ n
    → All (λ t. t.id < n + 1) (ts ++ t ∷ [])
fresh-append n [] t h e = ground arith
fresh-append n (x ∷ ts) t h e = ground (arith, fresh-append n ts t h.1 e)

-- An INSERT that is not refused.
pub insert_trade-IsKeyed :
    (t row : Trade) (db db' : Db) → insert_trade t db ≡ some (row, db') → IsKeyed db → IsKeyed db'
insert_trade-IsKeyed t row db db' h k =
    let (named, rows, next, _, free, _) = insert_trade_inv t row db db' h in
    record {
      unique = λ c. rw rows (
          ground (
            arith,
            k.unique c,
            no_conflict t c db.trades free,
            rows_for-append c db.trades row,
            named,
          ));
      ids = λ j. rw rows (
          ground (
            arith,
            k.ids j,
            absent db.next_trade_id db.trades k.fresh,
            ids-append j db.trades row,
            named,
          ));
      fresh =
          rw (rows, next)
            (fresh-append db.next_trade_id db.trades row k.fresh (ap (λ (r : Trade). r.id) named));
    }

-- Only the tables and the requests matter.
pub IsSafe-of :
    (s : System) (w : World) (jobs : List Trade)
    → IsKeyed w.db
    → ((c : Text) → orders_for c w.requests + rows_for c jobs ≤ claims_for c w.db.trades)
    → IsSafe (record s { world = w; jobs = jobs })
IsSafe-of s w jobs k h = record { keyed = k; once = h }
