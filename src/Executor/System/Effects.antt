-- ===== src/Executor/System/Effects.antt =====
-- What each step does to the tables and to the requests.
use crypto_auto_trader.Base.{
  ℕ, ◌+◌, ◌≤◌, ◌≡◌, ◌⊎◌, inl, inr, refl, true, Option, none, some, [], ◌∷◌, ◌++◌, arith, ◌==◌,
  if◌then◌else◌, Bool-cases, Option-cases, ◌∙◌,
}
use crypto_auto_trader.Text.{Text, text, text_eq}
use crypto_auto_trader.Numbers.{format_decimal}
use crypto_auto_trader.Models.{Trade, side_value}
use crypto_auto_trader.Errors.{Exc, Result, ok, err, Result-cases}
use crypto_auto_trader.Host.{Host, Request, http_post}
use crypto_auto_trader.Store.{Db, has_id, count_where, find, insert_trade}
use crypto_auto_trader.World.{World, commit, commit_insert, send, ◌>>=◌}
use crypto_auto_trader.World.Runs.{bind-lift_ok, bind-lift_err, world-bind-lift}
use crypto_auto_trader.Trading.Claim.{claim_err, claim_ok}
use crypto_auto_trader.Payload.{Payload}
use crypto_auto_trader.Binance.{or_value_error, from_payload}
use crypto_auto_trader.BinanceClient.{
  Client, request, signed_params, assert_testnet, order_params, dry_run_result, place_market_order,
  get_order,
}
use crypto_auto_trader.Trading.{
  pending_trade, created, create_pending_trade, claimable, claim_update, claim_for_submission,
  place_order,
}
use crypto_auto_trader.Executor.System.Counts.{is_for, is_order_for, orders_for, orders_for-append}

module _ (host : Host) where
  pub commit_cases :
      (f : Db → Db) (w : World)
      → ((commit host f w).1.db ≡ w.db) ⊎ ((commit host f w).1.db ≡ f w.db)
  unfolding commit
  commit_cases f w = ground arith

  pub requests-commit : (f : Db → Db) (w : World) → (commit host f w).1.requests ≡ w.requests
  unfolding commit
  requests-commit f w = ground arith

  pub commit_insert_cases :
      {A : Type 0} (f : Db → Option (A × Db)) (w : World)
      → ((commit_insert host f w).1.db ≡ w.db)
        ⊎ ((a : A) × (db : Db) × (f w.db ≡ some (a, db)) × ((commit_insert host f w).1.db ≡ db))
  unfolding commit_insert
  commit_insert_cases f w = elim (Bool-cases (host.commit_fails w.commits)) [
    | inl down ↦ inl (rw down)
    | inr up ↦ elim (Option-cases (f w.db)) [
      | inl refused ↦ inl (rw (up, refused))
      | inr (r, e) ↦ inr (r.0, r.1, e, rw (up, e))
    ]
  ]

  -- The handling of the INSERT's end touches neither table nor requests.
  world-created :
      (payload : Payload) (r : Result Trade) (w : World) → (created host payload r w).1 ≡ w
  unfolding ◌>>=◌
  world-created payload (ok t) w = refl
  world-created payload (err Exc.integrity_error) w = refl
  world-created payload (err e) w = refl

  pub world-create_pending_trade :
      (payload : Payload) (owner_id : ℕ) (w : World)
      → (create_pending_trade host payload owner_id w).1
        ≡ (commit_insert host (insert_trade (pending_trade host payload owner_id w.clock)) w).1
  unfolding create_pending_trade ◌>>=◌
  world-create_pending_trade payload owner_id w = world-created payload _ _

  -- A claim that comes too late, or whose commit fails, hands back no trade; any other one has
  -- marked its row.
  pub claim_cases :
      (k : ℕ) (w : World)
      → (((claim_for_submission host k w).1.db ≡ w.db)
          × ((claim_for_submission host k w).0 ≡ err Exc.sqlalchemy_error))
        ⊎ (((claim_for_submission host k w).1.db ≡ claim_update k w.clock w.db)
            × ((claim_for_submission host k w).0
                ≡ ok (
                    if count_where (claimable k) w.db.trades == 1
                    then find (has_id k) (claim_update k w.clock w.db).trades
                    else none)))
  claim_cases k w = elim (Bool-cases (host.commit_fails w.commits)) [
    | inl down ↦ inl (rw (claim_err host k w down), rw (claim_err host k w down))
    | inr up ↦ inr (rw (claim_ok host k w up), rw (claim_ok host k w up))
  ]

  pub requests-claim_for_submission :
      (k : ℕ) (w : World) → (claim_for_submission host k w).1.requests ≡ w.requests
  requests-claim_for_submission k w = elim (Bool-cases (host.commit_fails w.commits)) [
    | inl down ↦ rw (claim_err host k w down)
    | inr up ↦ rw (claim_ok host k w up)
  ]

  module _ (client : Client) (t : Trade) where
    -- The request of an order, with the quantity in plain notation.
    abbrev pub order_request : Text → World → Request
    order_request quantity w = record {
      method = http_post;
      path = if client.dry_run then text "/api/v3/order/test" else text "/api/v3/order";
      params =
          signed_params host client w.clock
            (order_params host t.symbol (side_value t.side) quantity t.client_order_id);
    }

    world-request :
        (quantity : Text) (w : World)
        → (request host client http_post
            (if client.dry_run then text "/api/v3/order/test" else text "/api/v3/order")
            (order_params host t.symbol (side_value t.side) quantity t.client_order_id)
            true
            w).1
          ≡ record w { requests = w.requests ++ order_request quantity w ∷ [] }
    unfolding request send ◌>>=◌
    world-request quantity w = refl

    -- Nothing is sent, or one order is.
    pub world-place_order :
        (w : World)
        → ((place_order host client t w).1 ≡ w)
          ⊎ ((quantity : Text) × ((place_order host client t w).1
                ≡ record w { requests = w.requests ++ order_request quantity w ∷ [] }))
    unfolding place_order place_market_order
    world-place_order w = elim (Result-cases (assert_testnet host client)) [
      | inr (e, refused) ↦ inl (rw (refused, bind-lift_err))
      | inl (a, allowed) ↦ elim (Result-cases (or_value_error (format_decimal t.quantity))) [
        | inr (e, infinite_quantity) ↦
            inl (rw (allowed, bind-lift_ok, infinite_quantity, bind-lift_err))
        | inl (q, plain) ↦ inr (
          q,
          rw (allowed, bind-lift_ok, plain, bind-lift_ok)
              (world-bind-lift _
                  (λ payload.
                    if client.dry_run
                    then ok
                        (dry_run_result host t.symbol (side_value t.side) t.client_order_id payload)
                    else from_payload host payload)
                  w
                ∙ world-request q w),
        )
      ]
    ]

    order_request-is_order_for :
        (c quantity : Text) (w : World)
        → (if is_order_for c (order_request quantity w) then 1 else 0) ≡ is_for c t
    unfolding signed_params order_params text_eq
    order_request-is_order_for c quantity w = refl

    pub db-place_order : (w : World) → (place_order host client t w).1.db ≡ w.db
    db-place_order w = elim (world-place_order w) [ inl e ↦ rw e | inr (q, e) ↦ rw e ]

    pub orders_for-place_order :
        (c : Text) (w : World)
        → orders_for c (place_order host client t w).1.requests
          ≤ is_for c t + orders_for c w.requests
    orders_for-place_order c w = elim (world-place_order w) [
      | inl e ↦ rw e (omega arith)
      | inr (q, e) ↦ rw (e, orders_for-append) (omega (arith, order_request-is_order_for c q w))
    ]

  -- A query is no order.
  pub orders_for-get_order :
      (client : Client) (symbol client_order_id c : Text) (w : World)
      → orders_for c (get_order host client symbol client_order_id w).1.requests
        ≡ orders_for c w.requests
  unfolding get_order request send ◌>>=◌
  orders_for-get_order client symbol client_order_id c w = rw orders_for-append (omega arith)
