-- ===== src/Executor/Recovery.antt =====
-- The queue's bound, and the recovery after a restart.
use crypto_auto_trader.Base.{
  ℕ, ◌+◌, ◌≤◌, ◌<◌, ◌≡◌, ◌&&◌, ap, ◌∙◌, Bool, true, false, List, [], ◌∷◌, ◌++◌, arith, length,
  length-append, any, take, select, All, All-imp, All-of-map, length-map, Bool-cases, ◌⊎◌, inl, inr,
  ltb,
}
use mathlib.Core.List.{append_assoc, append-nil}
use Prim.Native.Nat.{min}
use crypto_auto_trader.Text.{Text}
use crypto_auto_trader.Models.{Trade}
use crypto_auto_trader.Errors.{ok}
use crypto_auto_trader.Host.{Host}
use crypto_auto_trader.Store.{order_by, has_id}
use crypto_auto_trader.Store.Order.{All-take, All-order_by, length-take, length-order_by}
use crypto_auto_trader.World.{World}
use crypto_auto_trader.World.Runs.{bind_ok, bind-gets, run-pure}
use crypto_auto_trader.Trading.{submit}
use crypto_auto_trader.Executor.{is_unsent, unsent_ids, submit_all, resume_pending}

-- The items that the ids become in the queue.
abbrev pub tagged : Text → List ℕ → List (ℕ × Text)
tagged request_id [] = []
tagged request_id (k ∷ ks) = (k, request_id) ∷ tagged request_id ks

module _ (host : Host) where
  -- A submission goes to the end of the queue if there is room, and says so.
  submit_room :
      (k : ℕ) (w : World)
      → length w.queue < host.settings.executor_queue_size
      → submit host k w ≡ (ok true, record w { queue = w.queue ++ (k, w.request_id) ∷ [] })
  unfolding submit
  submit_room k w room = ground arith

  submit_all_room :
      (ks : List ℕ) (w : World)
      → length w.queue + length ks ≤ host.settings.executor_queue_size
      → submit_all host ks w ≡ (ok tt, record w { queue = w.queue ++ tagged w.request_id ks })
  unfolding submit_all
  submit_all_room [] w room = rw (run-pure, append-nil)
  submit_all_room (k ∷ ks) w room =
      rw (bind_ok, submit_room k w (omega arith))
        (submit_all_room ks (record w { queue = w.queue ++ (k, w.request_id) ∷ [] })
            (omega (arith, length-append w.queue ((k, w.request_id) ∷ [])))
          ∙ rw append_assoc)

-- `submit` keeps the queue within its bound: with room the item goes to its end and the answer is
-- true, without room nothing changes and the answer is false.
submit_bounded :
    (host : Host) (k : ℕ) (w : World)
    → length w.queue ≤ host.settings.executor_queue_size
    → let (answer, w') = submit host k w in
      (length w'.queue ≤ host.settings.executor_queue_size)
      × (((answer ≡ ok true) × (w'.queue ≡ w.queue ++ (k, w.request_id) ∷ []))
          ⊎ ((answer ≡ ok false) × (w' ≡ w) × (length w.queue ≡ host.settings.executor_queue_size)))
unfolding submit
submit_bounded host k w h = ground (arith, length-append w.queue ((k, w.request_id) ∷ []))

length-unsent_ids :
    (host : Host) (w : World)
    → length (unsent_ids host w)
      ≡ min host.settings.executor_queue_size (length (select is_unsent w.db.trades))
unfolding unsent_ids
length-unsent_ids host w =
    let size = host.settings.executor_queue_size in
    let before = λ (a b : Trade). ltb a.id b.id in
    let rows = select is_unsent w.db.trades in
    length-map (λ (t : Trade). t.id) (take size (order_by before rows))
    ∙ length-take size (order_by before rows)
    ∙ ap (min size) (length-order_by before rows)

-- The id is that of a row that is PENDING and was never sent.
abbrev pub is_unsent_id : List Trade → ℕ → Bool
is_unsent_id ts k = any (λ t. has_id k t && is_unsent t) ts

All-select_cons :
    (p : Trade → Bool) (P : Trade → Type 0) (t : Trade) (ts : List Trade)
    → (p t ≡ true → P t)
    → All P (select p ts)
    → All P (select p (t ∷ ts))
All-select_cons p P t ts here rest = elim (Bool-cases (p t)) [
  | inl e ↦ rw e (here e, rest)
  | inr e ↦ rw e rest
]

unsent_rows : (ts : List Trade) → All (λ t. is_unsent_id ts t.id ≡ true) (select is_unsent ts)
unsent_rows [] = tt
unsent_rows (t ∷ ts) =
    All-select_cons is_unsent (λ x. is_unsent_id (t ∷ ts) x.id ≡ true) t ts (λ h. ground arith)
      (All-imp (λ (x : Trade). is_unsent_id ts x.id ≡ true) (λ x. is_unsent_id (t ∷ ts) x.id ≡ true)
        (select is_unsent ts) (λ x h. ground arith) (unsent_rows ts))

unsent_ids-All :
    (host : Host) (w : World) → All (λ k. is_unsent_id w.db.trades k ≡ true) (unsent_ids host w)
unfolding unsent_ids
unsent_ids-All host w =
    let before = λ (a b : Trade). ltb a.id b.id in
    let rows = select is_unsent w.db.trades in
    let P = λ (t : Trade). is_unsent_id w.db.trades t.id ≡ true in
    let size = host.settings.executor_queue_size in
    All-of-map (λ k. is_unsent_id w.db.trades k ≡ true) (λ (t : Trade). t.id)
      (take size (order_by before rows))
      (All-take P size (order_by before rows)
        (All-order_by before P rows (unsent_rows w.db.trades)))

-- A restart, with nothing queued yet, fills the queue with ids of trades that are PENDING and were
-- never sent: as many ids as there are such trades, or as the queue has room for. It answers how
-- many, writes nothing and sends nothing.
pub resume_pending_requeues :
    (host : Host) (w : World)
    → w.queue ≡ []
    → let ids = unsent_ids host w in
      (resume_pending host w ≡ (ok (length ids), record w { queue = tagged w.request_id ids }))
      × All (λ k. is_unsent_id w.db.trades k ≡ true) ids
      × (length ids ≡ min host.settings.executor_queue_size (length (select is_unsent w.db.trades)))
unfolding resume_pending
resume_pending_requeues host w empty =
    let ids = unsent_ids host w in
    let room = length-unsent_ids host w in
    (
      rw (
        bind-gets,
        bind_ok,
        submit_all_room host ids w (omega (arith, room, ap length empty)),
        run-pure,
        empty,
      ),
      unsent_ids-All host w,
      room,
    )
