-- ===== src/Tests/Signals.antt =====
-- Runs of the intake: payloads, signals and the queue.
use crypto_auto_trader.Base.{
  ◌≡◌, ◌↔◌, refl, true, false, none, some, [], ◌∷◌, any, All, length, select,
}
use Prim.Native.Nat.{min}
use crypto_auto_trader.Text.{Text, text, text_eq, text_in, strip, upper, split}
use crypto_auto_trader.Numbers.{decimal_lt}
use crypto_auto_trader.Models.{Trade}
use crypto_auto_trader.Errors.{AppErrorClass, Exc, ok, err}
use crypto_auto_trader.Errors.Envelope.{app_message}
use crypto_auto_trader.World.{World}
use crypto_auto_trader.Config.{allowed_symbols}
use crypto_auto_trader.Payload.{
  parse_payload, validate_signal_id, signal_id_match, validate_symbol, symbol_match,
  validate_action, validate_quantity,
}
use crypto_auto_trader.Payload.Format.{IsWellFormed, parse_payload-IsWellFormed}
use crypto_auto_trader.Trading.{validate_signal, process_signal}
use crypto_auto_trader.Trading.Validation.{validate_signal_iff}
use crypto_auto_trader.Trading.Signal.{
  new_row, process_signal_duplicate, stale_owner_reads_as_duplicate,
}
use crypto_auto_trader.Trading.Accepted.{recorded, process_signal_queued}
use crypto_auto_trader.Executor.{unsent_ids, is_unsent, resume_pending}
use crypto_auto_trader.Executor.Recovery.{tagged, is_unsent_id, resume_pending_requeues}
use crypto_auto_trader.Tests.Data.{host, client, world, world_of, alice, payload_of, raw, pending}

pub parsed : parse_payload host.upper_char raw ≡ some (payload_of (text "s2"))
unfolding parse_payload validate_signal_id signal_id_match strip validate_symbol symbol_match upper
    validate_action text_eq validate_quantity decimal_lt
parsed = refl

parse_payload-IsWellFormed_example : IsWellFormed (payload_of (text "s2"))
parse_payload-IsWellFormed_example =
    parse_payload-IsWellFormed host.upper_char raw (payload_of (text "s2")) parsed

pub valid : (signal_id : Text) → validate_signal host (payload_of signal_id) ≡ ok tt
unfolding validate_signal allowed_symbols split text_eq strip upper decimal_lt
valid signal_id = refl

validate_signal_iff_example : (validate_signal host (payload_of (text "s2")) ≡ ok tt) ↔ (
    (text_in (text "BTCUSDT") (allowed_symbols host.upper_char (text "BTCUSDT")) ≡ true)
    × (decimal_lt (payload_of (text "s2")).quantity host.settings.min_order_quantity ≡ some false)
    × (decimal_lt host.settings.max_order_quantity (payload_of (text "s2")).quantity ≡ some false))
validate_signal_iff_example = validate_signal_iff host (payload_of (text "s2"))

-- The trade of another signal, and then the one of s1.
abbrev other_trade : Trade
other_trade = record pending { id = 5; signal_id = text "s5"; client_order_id = text "cat-s5" }

abbrev both : World
both = world_of (alice ∷ []) (other_trade ∷ pending ∷ [])

not_yet : any (λ (t : Trade). text_eq (text "s1") t.signal_id) (other_trade ∷ []) ≡ false
unfolding text_eq
not_yet = refl

process_signal_duplicate_example : process_signal host client (payload_of (text "s1")) both ≡ (
  err (
      Exc.app
        (AppErrorClass.duplicate_signal (some 1))
        (app_message (AppErrorClass.duplicate_signal (some 1)))),
  record both { commits = 1 },
)
process_signal_duplicate_example =
    process_signal_duplicate host client (payload_of (text "s1")) 1 both (other_trade ∷ []) []
      pending (valid (text "s1")) refl refl refl not_yet refl

stale_owner_reads_as_duplicate_example :
    process_signal host client (payload_of (text "s2")) (world_of [] []) ≡ (
      err (
          Exc.app
            (AppErrorClass.duplicate_signal none)
            (app_message (AppErrorClass.duplicate_signal none))),
      record (world_of [] []) { commits = 1 },
    )
stale_owner_reads_as_duplicate_example =
    stale_owner_reads_as_duplicate host client (payload_of (text "s2")) 1 (world_of [] [])
      (valid (text "s2")) refl refl refl refl

process_signal_queued_example :
    let row = new_row host client (payload_of (text "s2")) 1 (world_of (alice ∷ []) []) in
    let now = recorded host client (payload_of (text "s2")) 1 (world_of (alice ∷ []) []) in
    process_signal host client (payload_of (text "s2")) (world_of (alice ∷ []) [])
    ≡ (ok row, record now { queue = (2, text "r1") ∷ [] })
process_signal_queued_example =
    process_signal_queued host client (payload_of (text "s2")) 1 (world_of (alice ∷ []) []) refl
      (valid (text "s2")) refl refl refl refl

resume_pending_requeues_example :
    let ids = unsent_ids host world in
    (resume_pending host world ≡ (ok (length ids), record world { queue = tagged (text "r1") ids }))
    × All (λ k. is_unsent_id world.db.trades k ≡ true) ids
    × (length ids ≡ min 2 (length (select is_unsent world.db.trades)))
resume_pending_requeues_example = resume_pending_requeues host world refl
