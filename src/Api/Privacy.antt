-- ===== src/Api/Privacy.antt =====
-- What the routes that read trades show of them: the caller's own, and no trace of the others.
use crypto_auto_trader.Base.{
  ℕ, ◌≡◌, refl, sym, ◌∙◌, ap, Bool, Option, none, some, List, [], ◌∷◌, ◌==◌, select,
}
use crypto_auto_trader.Models.{User, Trade, TradeStatus}
use crypto_auto_trader.Errors.{ok}
use crypto_auto_trader.Errors.Envelope.{FieldError}
use crypto_auto_trader.Store.{has_id}
use crypto_auto_trader.Host.{Host}
use crypto_auto_trader.World.{World, Exec, ◌>>=◌}
use crypto_auto_trader.World.Runs.{continue, bind_lem, bind_ok}
use crypto_auto_trader.World.Agrees.{Agrees, Agrees-pure, Agrees-lift, Agrees-bind, agrees_rules}
use crypto_auto_trader.Webhook.{trade_read}
use crypto_auto_trader.Store.Rows.{select-and, find-select}
use crypto_auto_trader.BinanceClient.{Client}
use crypto_auto_trader.Security.{Crypto}
use crypto_auto_trader.Auth.{Credentials, get_current_user}
use crypto_auto_trader.Auth.Sessions.{session_result, run-get_current_user}
use crypto_auto_trader.Queries
use crypto_auto_trader.Queries.{
  in_status, is_listed, list_trades_for_user, get_trade_for_user, trade_or_404,
}
use crypto_auto_trader.Routes
use crypto_auto_trader.Api.Guard.{some_inv}
use crypto_auto_trader.Api.{Inbound, authorised, read_trade, handle, respond}

abbrev pub is_owned : ℕ → Trade → Bool
is_owned user_id t = t.user_id == user_id

-- Two states that differ, for this user, in other users' trades only, and in what no answer is made
-- of: the queue, the requests sent, the counters.
pub record SameView (user_id : ℕ) (w w' : World) : Type 0 where
  pub own : select (is_owned user_id) w.db.trades ≡ select (is_owned user_id) w'.db.trades
  pub users : w.db.users ≡ w'.db.users
  pub clock : w.clock ≡ w'.clock
  pub request_id : w.request_id ≡ w'.request_id

-- The credentials of a request that reads trades.
abbrev pub reader_of : Inbound → Option (Option Credentials)
reader_of (Inbound.list_trades given limit offset status) = some given
reader_of (Inbound.get_trade given trade_id) = some given
reader_of _ = none

module _ (user : User) where
  abbrev View : World → World → Type 0
  View w w' = SameView user.id w w'

  Agrees-list :
      (limit offset : ℕ) (status : Option TradeStatus) (w w' : World)
      → View w w'
      → list_trades_for_user user limit offset status w.db
        ≡ list_trades_for_user user limit offset status w'.db
  unfolding list_trades_for_user
  Agrees-list limit offset status w w' v =
      let p = is_owned user.id in
      let q = in_status status in
      rw (select-and p q w.db.trades, select-and p q w'.db.trades, v.own) refl

  Agrees-read_all : (ts : List Trade) → Agrees View (Routes.read_all ts)
  unfolding Routes.read_all
  Agrees-read_all [] = search agrees_rules
  Agrees-read_all (t ∷ ts) =
      Agrees-bind View _ _ (Agrees-lift View (trade_read t)) (λ item.
        Agrees-bind View _ _ (Agrees-read_all ts) (λ items. Agrees-pure View (item ∷ items)))

  Agrees-list_trades :
      (limit offset : ℕ) (status : Option TradeStatus)
      → Agrees View (Routes.list_trades user limit offset status)
  unfolding Routes.list_trades
  Agrees-list_trades limit offset status =
      search (agrees_rules, Agrees-read_all, Agrees-list limit offset status)

  Agrees-trade_or_404 : (trade_id : ℕ) (o : Option Trade) → Agrees View (trade_or_404 trade_id o)
  Agrees-trade_or_404 trade_id none = search agrees_rules
  Agrees-trade_or_404 trade_id (some t) = search agrees_rules

  Agrees-found :
      (trade_id : ℕ) (w w' : World)
      → View w w'
      → get_trade_for_user user trade_id w.db ≡ get_trade_for_user user trade_id w'.db
  unfolding get_trade_for_user
  Agrees-found trade_id w w' v =
      let p = is_owned user.id in
      let q = has_id trade_id in
      rw (find-select p q w.db.trades, find-select p q w'.db.trades, v.own) refl

  Agrees-get_trade : (trade_id : ℕ) → Agrees View (Queries.get_trade user trade_id)
  unfolding Queries.get_trade
  Agrees-get_trade trade_id = search (agrees_rules, Agrees-trade_or_404, Agrees-found trade_id)

  Agrees-read_trade : (trade_id : ℕ) → Agrees View (read_trade user trade_id)
  unfolding read_trade
  Agrees-read_trade trade_id = search (agrees_rules, Agrees-get_trade)

module _ (host : Host) (crypto : Crypto) (client : Client) where
  -- Past the token, a handler runs for the user that it names.
  run-authorised :
      {A B : Type 0} (given : Option Credentials) (k : User → Exec A) (f : A → Exec B) (user : User)
      (w : World)
      → session_result host crypto given w ≡ ok user
      → (authorised host crypto client given k >>= f) w ≡ (k user >>= f) w
  run-authorised given k f user w h =
      let named : authorised host crypto client given k w ≡ k user w =
        bind_ok (get_current_user host crypto given) k w w user
          (rw (run-get_current_user host crypto given w, h) refl) in
      bind_lem (authorised host crypto client given k) f w
      ∙ ap (continue f) named
      ∙ sym (bind_lem (k user) f w)

  session-SameView :
      (given : Option Credentials) (user : User) (w w' : World)
      → SameView user.id w w'
      → session_result host crypto given w' ≡ session_result host crypto given w
  session-SameView none user w w' v = refl
  session-SameView (some c) user w w' v = rw (v.users, v.clock) refl

  -- Both runs go past the token as the same user.
  same_answer :
      {A B : Type 0} (given : Option Credentials) (k : User → Exec A) (f : A → Exec B) (user : User)
      (w w' : World)
      → session_result host crypto given w ≡ ok user
      → SameView user.id w w'
      → Agrees (View user) (k user >>= f)
      → let m = authorised host crypto client given k >>= f in
        ((m w).0 ≡ (m w').0) × ((m w).1.request_id ≡ (m w').1.request_id)
  same_answer given k f user w w' h v agrees =
      rw
        (
          run-authorised given k f user w h,
          run-authorised given k f user w' (session-SameView given user w w' v ∙ h),
        )
        (agrees.same w w' v, (agrees.related w w' v).request_id)

  handle_same :
      (request : Inbound) (given : Option Credentials) (user : User) (w w' : World)
      → reader_of request ≡ some given
      → session_result host crypto given w ≡ ok user
      → SameView user.id w w'
      → let m = handle host crypto client request in
        ((m w).0 ≡ (m w').0) × ((m w).1.request_id ≡ (m w').1.request_id)
  unfolding handle
  handle_same (Inbound.list_trades o limit offset status) given user w w' c h v =
      same_answer o _ _ user w w' (rw (some_inv o given c) h) v
        (search (agrees_rules, Agrees-list_trades))
  handle_same (Inbound.get_trade o trade_id) given user w w' c h v =
      same_answer o _ _ user w w' (rw (some_inv o given c) h) v
        (search (agrees_rules, Agrees-read_trade))
  handle_same _ given user w w' c h v = cc

-- The answers show the caller's trades and no trace of the others: in two states that hold the same
-- accounts and the same trades of this user, at the same time, whatever trades other users have in
-- either, the list of the trades and the query for one by any id get the same answer, its status
-- included. In particular the id of another user's trade is answered as one that does not exist.
pub other_trades_leave_no_trace :
    (host : Host) (crypto : Crypto) (client : Client) (errors : List FieldError) (request : Inbound)
    (given : Option Credentials) (user : User) (w w' : World)
    → reader_of request ≡ some given
    → (get_current_user host crypto given w).0 ≡ ok user
    → SameView user.id w w'
    → (respond host crypto client errors request w).0
      ≡ (respond host crypto client errors request w').0
unfolding respond
other_trades_leave_no_trace host crypto client errors request given user w w' c h v =
    let session : session_result host crypto given w ≡ ok user =
      rw (run-get_current_user host crypto given w) at h in
    let (same, id) = handle_same host crypto client request given user w w' c session v in
    rw (same, id) refl
