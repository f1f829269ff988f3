-- ===== src/Reconciliation/Unsent.antt =====
-- A reconciliation that meets a trade which was never sent.
use crypto_auto_trader.Base.{
  ℕ, ◌+◌, ◌≡◌, refl, ap, ◌∙◌, true, false, none, some, List, [], ◌∷◌, ◌++◌, arith, any, ==_iff,
}
use crypto_auto_trader.Text.{Text, text}
use crypto_auto_trader.Models.{Trade, TradeStatus, is_terminal}
use crypto_auto_trader.Errors.{ok}
use crypto_auto_trader.Host.{Host}
use crypto_auto_trader.Store.{Db, has_id, count_where, update_where, update_trade}
use crypto_auto_trader.Store.Rows.{update_where-middle}
use crypto_auto_trader.World.{World, send, ◌>>=◌}
use crypto_auto_trader.World.Runs.{bind-gets}
use crypto_auto_trader.BinanceClient.{Client, request, get_order}
use crypto_auto_trader.BinanceClient.Calls.{db-get_order}
use crypto_auto_trader.Outcomes.{not_found_changes}
use crypto_auto_trader.Reconciliation.{record_answer, reconcile_trade}
use crypto_auto_trader.Reconciliation.Answers.{reconcile_open, save_ok}
use crypto_auto_trader.Trading.{claimable, claim_for_submission}
use crypto_auto_trader.Trading.Claim.{claim_ok}
use crypto_auto_trader.Executor.{is_unsent}
use crypto_auto_trader.Executor.Recovery.{is_unsent_id}

not-claimable :
    (k now : ℕ) (ts : List Trade)
    → count_where (claimable k) (update_where (has_id k) (not_found_changes now) ts) ≡ 0
unfolding not_found_changes
not-claimable k now [] = refl
not-claimable k now (t ∷ ts) = ground (arith, not-claimable k now ts)

not-unsent :
    (k now : ℕ) (ts : List Trade)
    → is_unsent_id (update_where (has_id k) (not_found_changes now) ts) k ≡ false
unfolding not_found_changes
not-unsent k now [] = refl
not-unsent k now (t ∷ ts) = ground (arith, not-unsent k now ts)

-- The row of a trade that was given up.
abbrev pub given_up_row : ℕ → Trade → Trade
given_up_row now t = record t {
  status = TradeStatus.failed;
  error_code = some (text "order_not_found");
  error_message = some (
      text
        "Binance has no order with this client order id; the submission never reached the exchange.");
  reconciled_at = some now;
  updated_at = now;
}

given_up_row_lem : (now : ℕ) (t : Trade) → not_found_changes now t ≡ given_up_row now t
unfolding not_found_changes
given_up_row_lem now t = refl

is_open : (t : Trade) → is_unsent t ≡ true → is_terminal t ≡ false
unfolding is_terminal
is_open t h = ground (arith, h)

clock-get_order :
    (host : Host) (client : Client) (symbol client_order_id : Text) (w : World)
    → (get_order host client symbol client_order_id w).1.clock ≡ w.clock
unfolding get_order request send ◌>>=◌
clock-get_order host client symbol client_order_id w = refl

module _ (host : Host) (client : Client) (trade : Trade) (w : World) where
  run-given_up :
      ((n : ℕ) → host.commit_fails n ≡ false)
      → is_terminal trade ≡ false
      → (get_order host client trade.symbol trade.client_order_id w).0 ≡ ok none
      → ((reconcile_trade host client trade w).0 ≡ ok (not_found_changes w.clock trade))
        × ((reconcile_trade host client trade w).1.db.trades
            ≡ update_where (has_id trade.id) (not_found_changes w.clock) w.db.trades)
  unfolding record_answer update_trade
  run-given_up up open_trade none_there =
      let asked = (get_order host client trade.symbol trade.client_order_id w).1 in
      let ran : reconcile_trade host client trade w ≡ (
        ok (not_found_changes asked.clock trade),
        record asked {
          db = update_trade trade.id (not_found_changes asked.clock) asked.db;
          commits = asked.commits + 1;
        },
      ) =
        rw
          (
            reconcile_open host client trade w open_trade,
            none_there,
            bind-gets,
            save_ok host trade (not_found_changes asked.clock) asked (up asked.commits),
          )
          refl in
      let now = clock-get_order host client trade.symbol trade.client_order_id w in
      let tables = db-get_order host client trade.symbol trade.client_order_id w in
      (
        ap (λ x. x.0) ran ∙ ap (λ n. ok (not_found_changes n trade)) now,
        ap (λ x. x.1.db.trades) ran
            ∙ ap (λ n. update_where (has_id trade.id) (not_found_changes n) asked.db.trades) now
            ∙ ap (λ (db : Db). update_where (has_id trade.id) (not_found_changes w.clock) db.trades)
                tables,
      )

-- A trade that is PENDING and was never sent, in a reconciliation that is told by the exchange that
-- there is no order under its client order id: its row becomes FAILED with the error code
-- order_not_found, and no other row changes; its id is no longer one of an unsent trade, which a
-- restart would queue, and a worker that claims it is handed no trade. The trade is in the table
-- under an id of its own, and the database answers.
pub unsent_is_given_up :
    (host : Host) (client : Client) (trade : Trade) (before after : List Trade) (w : World)
    → ((n : ℕ) → host.commit_fails n ≡ false)
    → w.db.trades ≡ before ++ trade ∷ after
    → any (has_id trade.id) before ≡ false
    → any (has_id trade.id) after ≡ false
    → is_unsent trade ≡ true
    → (get_order host client trade.symbol trade.client_order_id w).0 ≡ ok none
    → let w' = (reconcile_trade host client trade w).1 in
      ((reconcile_trade host client trade w).0 ≡ ok (given_up_row w.clock trade))
      × (w'.db.trades ≡ before ++ given_up_row w.clock trade ∷ after)
      × (is_unsent_id w'.db.trades trade.id ≡ false)
      × ((claim_for_submission host trade.id w').0 ≡ ok none)
unsent_is_given_up host client trade before after w up rows first last unsent none_there =
    let w' = (reconcile_trade host client trade w).1 in
    let (answer, written) = run-given_up host client trade w up (is_open trade unsent) none_there in
    let row =
      ap (update_where (has_id trade.id) (not_found_changes w.clock)) rows
      ∙ update_where-middle (has_id trade.id) (not_found_changes w.clock) before after trade first
          last ((==_iff trade.id trade.id).1 refl) in
    (
      answer ∙ ap ok (given_up_row_lem w.clock trade),
      written ∙ row ∙ ap (λ (x : Trade). before ++ x ∷ after) (given_up_row_lem w.clock trade),
      rw written (not-unsent trade.id w.clock w.db.trades),
      rw (claim_ok host trade.id w' (up w'.commits), written, not-claimable) refl,
    )
