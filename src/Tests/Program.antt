-- ===== src/Tests/Program.antt =====
-- Runs of the program as a whole: its start, its calls, its end.
use crypto_auto_trader.Base.{◌-◌, ◌≡◌, refl, true, false, none, some, List, [], ◌∷◌, length, any}
use crypto_auto_trader.Text.{text, text_eq, strip}
use crypto_auto_trader.Models.{User}
use crypto_auto_trader.Errors.{ok}
use crypto_auto_trader.World.{◌>>=◌, send, commit_insert}
use crypto_auto_trader.Store.{insert_user}
use crypto_auto_trader.BinanceClient.{request, found_order, get_order}
use crypto_auto_trader.Binance.{handle_transport, handle_response}
use crypto_auto_trader.Reconciliation.{reconcile_trade}
use crypto_auto_trader.Reconciliation.Unsent.{given_up_row, unsent_is_given_up}
use crypto_auto_trader.Trading.{claim_for_submission}
use crypto_auto_trader.Security.{hash_password, password_within_bcrypt_limit, utf8_length}
use crypto_auto_trader.Auth.{normalise_email, register_user}
use crypto_auto_trader.Auth.Registration.{register_user_sound}
use crypto_auto_trader.Executor.{Executor}
use crypto_auto_trader.Executor.Recovery.{is_unsent_id}
use crypto_auto_trader.Executor.System.{Reach}
use crypto_auto_trader.Executor.System.Refines.{at_state}
use crypto_auto_trader.Lifespan.{Process, shutdown}
use crypto_auto_trader.Lifespan.Shutdown.{shutdown_drains}
use crypto_auto_trader.Program.{Call, serve_all}
use crypto_auto_trader.Program.Refinement.{serve_all-Reach}
use crypto_auto_trader.Tests.Data.{host, client, crypto, world, pending, alice, raw}
use crypto_auto_trader.Tests.Answers.{without_order}

-- A signal, its order, a restart, and the reconciliation.
abbrev calls : List Call
calls =
    Call.incoming (text "r2")
    ∷ Call.webhook raw (some (text "hook"))
    ∷ Call.work
    ∷ Call.restart true
    ∷ Call.tick 70000
    ∷ Call.reconcile_run 60 10
    ∷ Call.reconcile_one alice 1
    ∷ Call.register (text "c@d") (text "password")
    ∷ []

serve_all-Reach_example :
    Reach host client (at_state world []) (at_state (serve_all host crypto client calls world) [])
serve_all-Reach_example = serve_all-Reach host crypto client calls world

asked_for_none :
    (get_order without_order client pending.symbol pending.client_order_id world).0 ≡ ok none
unfolding get_order request handle_transport handle_response found_order send ◌>>=◌ text_eq
asked_for_none = refl

unsent_is_given_up_example :
    let w' = (reconcile_trade without_order client pending world).1 in
    ((reconcile_trade without_order client pending world).0 ≡ ok (given_up_row 90000 pending))
    × (w'.db.trades ≡ given_up_row 90000 pending ∷ [])
    × (is_unsent_id w'.db.trades 1 ≡ false)
    × ((claim_for_submission without_order 1 w').0 ≡ ok none)
unsent_is_given_up_example =
    unsent_is_given_up without_order client pending [] [] world (λ n. refl) refl refl refl refl
      asked_for_none

abbrev bob : User
bob = record {
  id = 2;
  email = text "c@d";
  password_hash = text "password";
  is_active = true;
  created_at = 90000;
  updated_at = 90000;
}

registered :
    register_user host crypto (text " c@d") (text "password") world
    ≡ (ok bob, (register_user host crypto (text " c@d") (text "password") world).1)
unfolding register_user ◌>>=◌ text_eq strip hash_password password_within_bcrypt_limit utf8_length
    commit_insert insert_user
registered = refl

register_user_sound_example :
    let w' = (register_user host crypto (text " c@d") (text "password") world).1 in
    (bob.id ≡ world.db.next_user_id)
    × (text "c@d" ≡ normalise_email host (text " c@d"))
    × (hash_password crypto (text "password") ≡ ok (text "password"))
    × (bob.is_active ≡ true)
    × (any (λ (v : User). text_eq (text "c@d") v.email) world.db.users ≡ false)
    × (w'.db.users ≡ alice ∷ bob ∷ [])
    × (w'.db.trades ≡ world.db.trades)
    × (w'.requests ≡ [])
register_user_sound_example =
    register_user_sound host crypto (text " c@d") (text "password") bob world
      (register_user host crypto (text " c@d") (text "password") world).1 registered

-- A process with two items queued.
abbrev busy : Executor
busy = record { running = true; workers = 1 }

abbrev process : Process
process = record {
  world = record world { queue = (1, text "r1") ∷ (9, text "r2") ∷ [] };
  executor = some busy;
  binance_client = some client;
}

shutdown_drains_example :
    let q = shutdown host client 1 process in
    (q.world.queue ≡ (9, text "r2") ∷ [])
    × (length q.world.queue ≡ 2 - 1)
    × (q.executor ≡ some (record { running = false; workers = 0 }))
    × (q.binance_client ≡ none)
shutdown_drains_example = shutdown_drains host client 1 process busy refl refl refl
