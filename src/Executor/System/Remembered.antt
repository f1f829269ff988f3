-- ===== src/Executor/System/Remembered.antt =====
-- A signal that is on record stays on record, under the same trade.
use crypto_auto_trader.Base.{
  ℕ, ◌≡◌, inl, inr, refl, ◌∙◌, Bool, some, List, [], ◌∷◌, ◌++◌, arith, Bool-cases,
}
use mathlib.Core.Option
use crypto_auto_trader.Text.{Text, text_eq}
use crypto_auto_trader.Models.{User, Trade}
use crypto_auto_trader.Host.{Host}
use crypto_auto_trader.Store.{find, update_where, insert_trade, insert_user, update_trade}
use crypto_auto_trader.Store.Laws.{insert_trade_inv, insert_user_inv}
use crypto_auto_trader.World.{World, commit, commit_insert}
use crypto_auto_trader.Payload.{Payload}
use crypto_auto_trader.BinanceClient.{Client}
use crypto_auto_trader.BinanceClient.Calls.{db-get_order}
use crypto_auto_trader.Outcomes.Keeps.{KeepsKey, Outcome-KeepsKey, claim_changes-KeepsKey}
use crypto_auto_trader.Outcomes.{claim_changes}
use crypto_auto_trader.Trading.{
  pending_trade, create_pending_trade, claimable, claim_update, claim_for_submission, winner_of,
}
use crypto_auto_trader.Executor.System.{System, Step, Reach}
use crypto_auto_trader.Executor.System.Effects.{
  commit_cases, commit_insert_cases, world-create_pending_trade, claim_cases, db-place_order,
}

-- The trade on record for a signal id, as `winner_of` reads it.
abbrev pub recorded_as : Text → List Trade → Option.Option ℕ
recorded_as s ts = Option.map (λ (t : Trade). t.id) (find (λ (t : Trade). text_eq t.signal_id s) ts)

recorded_as-append :
    (s : Text) (k : ℕ) (ts : List Trade) (t : Trade)
    → recorded_as s ts ≡ some k
    → recorded_as s (ts ++ t ∷ []) ≡ some k
recorded_as-append s k [] t h = cc
recorded_as-append s k (x ∷ ts) t h = elim (Bool-cases (text_eq x.signal_id s)) [
  | inl e ↦ ground (arith, h)
  | inr e ↦ ground (arith, h, recorded_as-append s k ts t)
]

recorded_as-update :
    (s : Text) (p : Trade → Bool) (f : Trade → Trade)
    → KeepsKey f
    → (ts : List Trade) → recorded_as s (update_where p f ts) ≡ recorded_as s ts
recorded_as-update s p f keeps [] = refl
recorded_as-update s p f keeps (t ∷ ts) = ground (arith, keeps t, recorded_as-update s p f keeps ts)

module _ (host : Host) (s : Text) (k : ℕ) (w : World) (seen : winner_of s w ≡ some k) where
  signal-recorded :
      (payload : Payload) (owner_id : ℕ)
      → winner_of s (create_pending_trade host payload owner_id w).1 ≡ some k
  signal-recorded payload owner_id =
      let t = pending_trade host payload owner_id w.clock in
      rw world-create_pending_trade (elim (commit_insert_cases host (insert_trade t) w) [
        | inl same ↦ rw same seen
        | inr (row, db, e, now_db) ↦
            let (_, rows, _, _, _, _) = insert_trade_inv t row w.db db e in
            rw (now_db, rows) (recorded_as-append s k w.db.trades row seen)
      ])

  register-recorded : (u : User) → winner_of s (commit_insert host (insert_user u) w).1 ≡ some k
  register-recorded u = elim (commit_insert_cases host (insert_user u) w) [
    | inl same ↦ rw same seen
    | inr (row, db, e, now_db) ↦
        let (_, _, trades, _, _) = insert_user_inv u row w.db db e in rw (now_db, trades) seen
  ]

  claim-recorded : (j : ℕ) → winner_of s (claim_for_submission host j w).1 ≡ some k
  unfolding claim_update
  claim-recorded j = elim (claim_cases host j w) [
    | inl (same, _) ↦ rw same seen
    | inr (marked, _) ↦ rw marked (
        recorded_as-update s (claimable j) (claim_changes w.clock) (claim_changes-KeepsKey w.clock)
          w.db.trades
        ∙ seen)
  ]

  write-recorded :
      (j : ℕ) (f : Trade → Trade)
      → KeepsKey f
      → winner_of s (commit host (update_trade j f) w).1 ≡ some k
  unfolding update_trade
  write-recorded j f keeps = elim (commit_cases host (update_trade j f) w) [
    | inl same ↦ rw same seen
    | inr written ↦ rw written (recorded_as-update s _ f keeps w.db.trades ∙ seen)
  ]

module _ (host : Host) (client : Client) (sig : Text) (k : ℕ) where
  Step-recorded :
      {s t : System}
      → Step host client s t
      → winner_of sig s.world ≡ some k
      → winner_of sig t.world ≡ some k
  Step-recorded (Step.signal payload owner_id) h = signal-recorded host sig k _ h payload owner_id
  Step-recorded (Step.register u) h = register-recorded host sig k _ h u
  Step-recorded (Step.claim j) h = claim-recorded host sig k _ h j
  Step-recorded (Step.send_order before after t e) h = rw db-place_order h
  Step-recorded (Step.write j f o) h = write-recorded host sig k _ h j f (Outcome-KeepsKey host o)
  Step-recorded (Step.query symbol id) h = rw db-get_order h
  Step-recorded (Step.cancel before after t e) h = h
  Step-recorded (Step.other queue clock owner request_id) h = h
  Step-recorded Step.crash h = h

  -- However the steps interleave, the trade on record for a signal stays the same one.
  pub Reach-recorded :
      {s t : System}
      → Reach host client s t
      → winner_of sig s.world ≡ some k
      → winner_of sig t.world ≡ some k
  Reach-recorded Reach.here h = h
  Reach-recorded (Reach.next r st) h = Step-recorded st (Reach-recorded r h)
