-- ===== src/Executor/Executes.antt =====
-- A queued trade, from the queue to the exchange and back into its row.
use crypto_auto_trader.Base.{
  ℕ, ◌+◌, ◌≡◌, refl, ap, ◌∙◌, true, false, none, some, if◌then◌else◌, List, [], ◌∷◌, ◌++◌, arith,
  any, ==_iff,
}
use crypto_auto_trader.Text.{Text, text, text_eq, text_in}
use crypto_auto_trader.Numbers.{format_decimal}
use crypto_auto_trader.Models.{Trade, TradeStatus, side_value}
use crypto_auto_trader.Errors.{ok}
use crypto_auto_trader.Store.{has_id, find, count_where, update_where, update_trade}
use crypto_auto_trader.Store.Rows.{count_where-middle, update_where-middle, find-middle}
use crypto_auto_trader.Host.{Host}
use crypto_auto_trader.World.{World}
use crypto_auto_trader.World.Runs.{bind_ok, bind-gets, bind-attempt, run-pure}
use crypto_auto_trader.Binance.{BinanceOrderResult}
use crypto_auto_trader.BinanceClient.{Client}
use crypto_auto_trader.BinanceClient.Placed.{order_sent, place_market_order_inv}
use crypto_auto_trader.Outcomes.{binance_status_map, map_status, claim_changes, success_changes}
use crypto_auto_trader.Reconciliation.Answers.{save_ok}
use crypto_auto_trader.Trading.{
  claimable, claim_update, claim_for_submission, place_order, finalise_success, record_outcome,
  submit_to_binance,
}
use crypto_auto_trader.Trading.Claim.{claim_ok}
use crypto_auto_trader.Executor.{is_unsent, run_item, execute, worker_round}

unclaimable : (k : ℕ) (ts : List Trade) → any (has_id k) ts ≡ false → any (claimable k) ts ≡ false
unclaimable k [] h = refl
unclaimable k (t ∷ ts) h = ground (arith, unclaimable k ts)

-- The state after the claim, and the one after the order's outcome is written.
abbrev claimed_state : ℕ → World → World
claimed_state k w = record w { db = claim_update k w.clock w.db; commits = w.commits + 1 }

abbrev recorded_state : ℕ → BinanceOrderResult → World → World
recorded_state k result v = record v {
  db = update_trade k (success_changes result v.clock) v.db;
  commits = v.commits + 1;
}

-- The row of a trade from its claim on: with its time of submission, and otherwise as it was.
abbrev pub sent_row : ℕ → Trade → Trade
sent_row now t = record t { submitted_at = some now; updated_at = now }

-- The status of a trade by the word of the exchange for its order.
abbrev pub status_for : Text → TradeStatus
status_for s =
    if text_eq s (text "NEW")
    then TradeStatus.new
    else if text_eq s (text "PARTIALLY_FILLED")
    then TradeStatus.partially_filled
    else if text_eq s (text "FILLED")
    then TradeStatus.filled
    else if text_in s (text "CANCELED" ∷ text "PENDING_CANCEL" ∷ [])
    then TradeStatus.cancelled
    else if text_eq s (text "REJECTED")
    then TradeStatus.rejected
    else if text_in s (text "EXPIRED" ∷ text "EXPIRED_IN_MATCH" ∷ [])
    then TradeStatus.expired
    else if text_eq s (text "DRY_RUN_VALIDATED")
    then TradeStatus.filled
    else TradeStatus.new

-- The row of a trade once the exchange has answered its order.
abbrev pub executed_row : BinanceOrderResult → ℕ → Trade → Trade
executed_row result now t = record t {
  binance_order_id = result.order_id;
  binance_status = some result.status;
  executed_quantity = some result.executed_quantity;
  cumulative_quote_quantity = some result.cumulative_quote_quantity;
  status = status_for result.status;
  error_code = none;
  error_message = none;
  submitted_at = some now;
  updated_at = now;
}

status_for_lem : (s : Text) → map_status s ≡ status_for s
unfolding map_status binance_status_map
status_for_lem s = ground arith

executed_row_lem :
    (result : BinanceOrderResult) (now : ℕ) (t : Trade)
    → success_changes result now (claim_changes now t) ≡ executed_row result now t
unfolding success_changes claim_changes
executed_row_lem result now t = rw (status_for_lem result.status) refl

-- The state in which a worker sends the order of a trade: the item is off the queue, and the row is
-- committed as sent.
abbrev pub sending : List Trade → Trade → List Trade → List (ℕ × Text) → Text → World → World
sending before t after rest request_id w = record w {
  db = record w.db { trades = before ++ sent_row w.clock t ∷ after };
  queue = rest;
  request_id = request_id;
  commits = w.commits + 1;
}

module _ (host : Host) (client : Client) (t : Trade) (before after : List Trade) (w : World)
    (up : (n : ℕ) → host.commit_fails n ≡ false) (rows : w.db.trades ≡ before ++ t ∷ after)
    (first : any (has_id t.id) before ≡ false) (last : any (has_id t.id) after ≡ false)
    (unsent : is_unsent t ≡ true) where
  claimable_here : claimable t.id t ≡ true
  claimable_here = ground (arith, unsent, ==_iff t.id t.id)

  claimed_rows : (claim_update t.id w.clock w.db).trades ≡ before ++ claim_changes w.clock t ∷ after
  unfolding claim_update
  claimed_rows =
      ap (update_where (claimable t.id) (claim_changes w.clock)) rows
      ∙ update_where-middle (claimable t.id) (claim_changes w.clock) before after t
          (unclaimable t.id before first) (unclaimable t.id after last) claimable_here

  counted : count_where (claimable t.id) w.db.trades ≡ 1
  counted =
      ap (count_where (claimable t.id)) rows
      ∙ count_where-middle (claimable t.id) before after t (unclaimable t.id before first)
          (unclaimable t.id after last) claimable_here

  same_id : (f : Trade → Trade) → (f t).id ≡ t.id → has_id t.id (f t) ≡ true
  same_id f h = (==_iff (f t).id t.id).1 h

  kept_id : (claim_changes w.clock t).id ≡ t.id
  unfolding claim_changes
  kept_id = refl

  found :
      find (has_id t.id) (claim_update t.id w.clock w.db).trades ≡ some (claim_changes w.clock t)
  found =
      ap (find (has_id t.id)) claimed_rows
      ∙ find-middle (has_id t.id) before after (claim_changes w.clock t) first
          (same_id (claim_changes w.clock) kept_id)

  claim_wins :
      claim_for_submission host t.id w
      ≡ (ok (some (claim_changes w.clock t)), (claimed_state t.id w))
  claim_wins = rw (claim_ok host t.id w (up w.commits), counted, found) refl

  submit_succeeds :
      (result : BinanceOrderResult) (v : World)
      → place_order host client (claim_changes w.clock t) (claimed_state t.id w) ≡ (ok result, v)
      → submit_to_binance host client (claim_changes w.clock t) (claimed_state t.id w) ≡ (
        ok (success_changes result v.clock (claim_changes w.clock t)),
        recorded_state t.id result v,
      )
  unfolding submit_to_binance record_outcome finalise_success
  submit_succeeds result v placed =
      rw
        (
          bind-attempt,
          placed,
          bind-gets,
          save_ok host (claim_changes w.clock t) (success_changes result v.clock) v (up v.commits),
          kept_id,
        )
        refl

  executes :
      (result : BinanceOrderResult) (v : World)
      → place_order host client (claim_changes w.clock t) (claimed_state t.id w) ≡ (ok result, v)
      → execute host client t.id w ≡ (ok tt, recorded_state t.id result v)
  unfolding execute
  executes result v placed =
      bind_ok _ _ w (claimed_state t.id w) (some (claim_changes w.clock t)) claim_wins
      ∙ bind_ok _ _ (claimed_state t.id w) (recorded_state t.id result v) _
          (submit_succeeds result v placed)
      ∙ run-pure tt (recorded_state t.id result v)

  recorded_rows :
      (result : BinanceOrderResult) (now : ℕ)
      → update_where
          (has_id t.id)
          (success_changes result now)
          (claim_update t.id w.clock w.db).trades
        ≡ before ++ success_changes result now (claim_changes w.clock t) ∷ after
  recorded_rows result now =
      ap (update_where (has_id t.id) (success_changes result now)) claimed_rows
      ∙ update_where-middle (has_id t.id) (success_changes result now) before after
          (claim_changes w.clock t) first last (same_id (claim_changes w.clock) kept_id)

  claimed-sending :
      (rest : List (ℕ × Text)) (request_id : Text)
      → claimed_state t.id (record w { queue = rest; request_id = request_id })
        ≡ sending before t after rest request_id w
  unfolding claim_changes claim_update
  claimed-sending rest request_id =
      ap
        (λ trades. record w {
          db = record w.db { trades = trades };
          queue = rest;
          request_id = request_id;
          commits = w.commits + 1;
        })
        claimed_rows

-- A worker whose next item is a trade that is PENDING and was never sent, where the database answers
-- and the placing of its order ends with a result. First the trade is claimed: its row is committed
-- with its time of submission, and still PENDING. Then one round of the worker takes the item off
-- the queue and sends one request, a signed market order with the trade's symbol, side, quantity in
-- plain notation and client order id; and it leaves the trade's row with the order id, the status
-- and the quantities that the exchange answered, and no error. No other row of the table changes.
pub worker_executes :
    (host : Host) (client : Client) (t : Trade) (before after : List Trade) (w : World)
    (request_id : Text) (rest : List (ℕ × Text)) (result : BinanceOrderResult)
    → ((n : ℕ) → host.commit_fails n ≡ false)
    → w.queue ≡ (t.id, request_id) ∷ rest
    → w.db.trades ≡ before ++ t ∷ after
    → any (has_id t.id) before ≡ false
    → any (has_id t.id) after ≡ false
    → is_unsent t ≡ true
    → (place_order host client (sent_row w.clock t) (sending before t after rest request_id w)).0
      ≡ ok result
    → let w' = (worker_round host client w).1 in
      (claim_for_submission host t.id (record w { queue = rest; request_id = request_id })
        ≡ (ok (some (sent_row w.clock t)), sending before t after rest request_id w))
      × (w'.queue ≡ rest)
      × (w'.db.trades ≡ before ++ executed_row result w.clock t ∷ after)
      × ((q : Text) × (format_decimal t.quantity ≡ some q)
          × (w'.requests
              ≡ w.requests
                ++ order_sent host client t.symbol (side_value t.side) q t.client_order_id w.clock
                  ∷ []))
unfolding worker_round place_order claim_changes update_trade
worker_executes host client t before after w request_id rest result up queued rows first last unsent
      answered =
    let u : World = record w { queue = rest; request_id = request_id } in
    let c = claim_changes w.clock t in
    let s = claimed_state t.id u in
    let v = (place_order host client c s).1 in
    let won = claim_wins host client t before after u up rows first last unsent in
    let committed =
      claimed-sending host client t before after w up rows first last unsent rest request_id in
    let answered' : (place_order host client c s).0 ≡ ok result =
      ap (λ (x : World). (place_order host client c x).0) committed ∙ answered in
    let placed : place_order host client c s ≡ (ok result, v) = ap (λ r. (r, v)) answered' in
    let (q, plain, sent) =
      place_market_order_inv host client t.symbol (side_value t.side) t.quantity t.client_order_id
        result s v placed in
    let ran : (worker_round host client w).1 ≡ recorded_state t.id result v =
      ap (λ items. (run_item host client items w).1) queued
      ∙ ap (λ x. x.1)
          (executes host client t before after u up rows first last unsent result v placed) in
    let final = ran ∙ ap (recorded_state t.id result) sent in
    (
      won ∙ ap (λ (x : World). (ok (some c), x)) committed,
      ap (λ (x : World). x.queue) final,
      ap (λ (x : World). x.db.trades) final
          ∙ recorded_rows host client t before after u up rows first last unsent result w.clock
          ∙ ap (λ (x : Trade). before ++ x ∷ after) (executed_row_lem result w.clock t),
      (q, plain, ap (λ (x : World). x.requests) final),
    )
