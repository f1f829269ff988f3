-- ===== src/Executor/System/Counts.antt =====
-- Counting rows, claims and orders by client order id, and how each operation moves the counts.
use crypto_auto_trader.Base.{
  ℕ, ◌+◌, ◌≤◌, ◌<◌, ◌≡◌, refl, Bool, false, ◌&&◌, Option, some, List, [], ◌∷◌, ◌++◌, arith, ◌==◌,
  if◌then◌else◌, is_some, All,
}
use crypto_auto_trader.Text.{Text, text, text_eq, get}
use crypto_auto_trader.Json.{Json}
use crypto_auto_trader.Models.{Trade}
use crypto_auto_trader.Host.{Request}
use crypto_auto_trader.World.Places.{is_post}
use crypto_auto_trader.Store.{has_id, count_where, find, update_where}
use crypto_auto_trader.Outcomes.{claim_changes}
use crypto_auto_trader.Outcomes.Keeps.{KeepsKey, KeepsClaim}
use crypto_auto_trader.Trading.{claimable}

-- 1 if the trade has this client order id
abbrev pub is_for : Text → Trade → ℕ
is_for c t = if text_eq t.client_order_id c then 1 else 0

abbrev pub rows_for : Text → List Trade → ℕ
rows_for c [] = 0
rows_for c (t ∷ ts) = is_for c t + rows_for c ts

-- 1 if the trade has this client order id and was claimed
abbrev pub is_claimed_for : Text → Trade → ℕ
is_claimed_for c t = if is_some t.submitted_at then is_for c t else 0

abbrev pub claims_for : Text → List Trade → ℕ
claims_for c [] = 0
claims_for c (t ∷ ts) = is_claimed_for c t + claims_for c ts

abbrev pub names_order : Text → Option Json → Bool
names_order c (some (Json.str s)) = text_eq s c
names_order c _ = false

-- A POST whose `newClientOrderId` is `c`.
abbrev pub is_order_for : Text → Request → Bool
is_order_for c r = is_post r && names_order c (get (text "newClientOrderId") r.params)

abbrev pub orders_for : Text → List Request → ℕ
orders_for c [] = 0
orders_for c (r ∷ rs) = (if is_order_for c r then 1 else 0) + orders_for c rs

pub orders_for-append :
    (c : Text) (rs : List Request) (r : Request)
    → orders_for c (rs ++ r ∷ []) ≡ orders_for c rs + (if is_order_for c r then 1 else 0)
orders_for-append c [] r = omega arith
orders_for-append c (x ∷ rs) r = omega (arith, orders_for-append c rs r)

pub claims_for-le-rows_for : (c : Text) (ts : List Trade) → claims_for c ts ≤ rows_for c ts
claims_for-le-rows_for c [] = omega arith
claims_for-le-rows_for c (t ∷ ts) = ground (arith, claims_for-le-rows_for c ts)

pub rows_for-remove :
    (c : Text) (before after : List Trade) (t : Trade)
    → rows_for c (before ++ t ∷ after) ≡ is_for c t + rows_for c (before ++ after)
rows_for-remove c [] after t = refl
rows_for-remove c (x ∷ before) after t = omega (arith, rows_for-remove c before after t)

pub rows_for-append :
    (c : Text) (ts : List Trade) (t : Trade)
    → rows_for c (ts ++ t ∷ []) ≡ rows_for c ts + is_for c t
rows_for-append c [] t = omega arith
rows_for-append c (x ∷ ts) t = omega (arith, rows_for-append c ts t)

pub claims_for-append :
    (c : Text) (ts : List Trade) (t : Trade)
    → claims_for c (ts ++ t ∷ []) ≡ claims_for c ts + is_claimed_for c t
claims_for-append c [] t = omega arith
claims_for-append c (x ∷ ts) t = omega (arith, claims_for-append c ts t)

pub ids-append :
    (k : ℕ) (ts : List Trade) (t : Trade)
    → count_where (has_id k) (ts ++ t ∷ [])
      ≡ count_where (has_id k) ts + (if t.id == k then 1 else 0)
ids-append k [] t = omega arith
ids-append k (x ∷ ts) t = omega (arith, ids-append k ts t)

module _ (p : Trade → Bool) (f : Trade → Trade) (keeps : KeepsKey f) where
  pub rows_for-update :
      (c : Text) (ts : List Trade) → rows_for c (update_where p f ts) ≡ rows_for c ts
  rows_for-update c [] = refl
  rows_for-update c (t ∷ ts) = ground (arith, keeps t, rows_for-update c ts)

  pub claims_for-update :
      (c : Text) (ts : List Trade)
      → KeepsClaim f
      → claims_for c (update_where p f ts) ≡ claims_for c ts
  claims_for-update c [] mark = refl
  claims_for-update c (t ∷ ts) mark = ground (arith, keeps t, mark t, claims_for-update c ts mark)

  pub ids-update :
      (k : ℕ) (ts : List Trade)
      → count_where (has_id k) (update_where p f ts) ≡ count_where (has_id k) ts
  ids-update k [] = refl
  ids-update k (t ∷ ts) = ground (arith, keeps t, ids-update k ts)

  pub fresh-update :
      (n : ℕ) (ts : List Trade) → All (λ t. t.id < n) ts → All (λ t. t.id < n) (update_where p f ts)
  fresh-update n [] h = tt
  fresh-update n (t ∷ ts) h = ground (arith, keeps t, fresh-update n ts h.1)

-- Where no row has the id, the claim changes nothing.
module _ (k now : ℕ) where
  abbrev marked : List Trade → List Trade
  marked = update_where (claimable k) (claim_changes now)

  claimable-absent :
      (ts : List Trade) → count_where (has_id k) ts ≡ 0 → count_where (claimable k) ts ≡ 0
  claimable-absent [] h = refl
  claimable-absent (t ∷ ts) h = ground (arith, claimable-absent ts)

  claims_for-absent :
      (c : Text) (ts : List Trade)
      → count_where (has_id k) ts ≡ 0
      → claims_for c (marked ts) ≡ claims_for c ts
  claims_for-absent c [] h = refl
  claims_for-absent c (t ∷ ts) h = ground (arith, claims_for-absent c ts)

  -- The claim of one row adds one claim, for the row that is handed back.
  pub claims_for-claim :
      (c : Text) (ts : List Trade) (t : Trade)
      → count_where (has_id k) ts ≤ 1
      → count_where (claimable k) ts ≡ 1
      → find (has_id k) (marked ts) ≡ some t
      → claims_for c (marked ts) ≡ is_for c t + claims_for c ts
  unfolding claim_changes
  claims_for-claim c [] t one won found = absurd (omega arith)
  claims_for-claim c (x ∷ ts) t one won found =
      ground (arith, claimable-absent ts, claims_for-absent c ts, claims_for-claim c ts t)

  -- A claim never removes one.
  pub claims_for-le-claim :
      (c : Text) (ts : List Trade) → claims_for c ts ≤ claims_for c (marked ts)
  unfolding claim_changes
  claims_for-le-claim c [] = omega arith
  claims_for-le-claim c (t ∷ ts) = ground (arith, claims_for-le-claim c ts)
