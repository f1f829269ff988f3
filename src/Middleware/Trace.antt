-- ===== src/Middleware/Trace.antt =====
-- The request id of an HTTP request, from the caller and back to the caller.
use crypto_auto_trader.Base.{
  ℕ, ◌≤◌, ◌≡◌, ◌≢◌, refl, ap, false, some, List, [], ◌∷◌, ◌++◌, arith, length, take-all, map, any,
  All,
}
use crypto_auto_trader.Text.{Text, text, text_eq, text_eq_refl}
use crypto_auto_trader.Middleware.{
  Headers, Scope, Message, App, Line, header_name, inbound_id, choose_id, send_wrapper, last_line,
  under, call,
}

-- A message that carries the id back, as the last header of a response's start.
abbrev pub Carries : Text → Message → Type 0
Carries request_id (Message.response_start status headers) =
    (before : Headers) × (headers ≡ before ++ (text "X-Request-ID", request_id) ∷ [])
Carries request_id (Message.other kind) = Unit

abbrev drop_last {ℓ} : {A : Type ℓ} → List A → List A
drop_last [] = []
drop_last (x ∷ []) = []
drop_last (x ∷ y ∷ xs) = x ∷ drop_last (y ∷ xs)

-- The message without its last header.
abbrev pub stripped : Message → Message
stripped (Message.response_start status headers) = Message.response_start status (drop_last headers)
stripped (Message.other kind) = Message.other kind

-- The status of the last start of a response, 500 before any.
abbrev pub status_of : ℕ → List Message → ℕ
status_of default [] = default
status_of default (Message.response_start status headers ∷ messages) = status_of status messages
status_of default (Message.other kind ∷ messages) = status_of default messages

drop_last-append {ℓ} : {A : Type ℓ} (xs : List A) (y : A) → drop_last (xs ++ y ∷ []) ≡ xs
drop_last-append [] y = refl
drop_last-append (x ∷ []) y = refl
drop_last-append (x ∷ z ∷ xs) y = ap (λ t. x ∷ t) (drop_last-append (z ∷ xs) y)

send_wrapper_lem :
    (request_id : Text) (status : ℕ) (messages : List Message)
    → let (last, sent) = send_wrapper request_id status messages in
      (last ≡ status_of status messages)
      × All (Carries request_id) sent
      × (map stripped sent ≡ messages)
unfolding send_wrapper
send_wrapper_lem request_id status [] = (refl, tt, refl)
send_wrapper_lem request_id status (Message.response_start s headers ∷ messages) =
    let (last, carried, same) = send_wrapper_lem request_id s messages in
    (last, ((headers, refl), carried), rw (drop_last-append, same))
send_wrapper_lem request_id status (Message.other kind ∷ messages) =
    let (last, carried, same) = send_wrapper_lem request_id status messages in
    (last, (tt, carried), ap (λ t. Message.other kind ∷ t) same)

inbound_lem :
    (before after : Headers) (given : Text)
    → any (λ (h : Text × Text). text_eq h.0 header_name) before ≡ false
    → inbound_id (before ++ (header_name, given) ∷ after) ≡ some given
unfolding inbound_id
inbound_lem [] after given h = rw text_eq_refl
inbound_lem ((name, value) ∷ before) after given h = ground (arith, inbound_lem before after given)

choose_lem :
    (given fresh_hex : Text)
    → given ≢ []
    → length given ≤ 64
    → choose_id (some given) fresh_hex ≡ given
unfolding choose_id
choose_lem [] fresh_hex h k = absurd (h refl)
choose_lem (c ∷ given) fresh_hex h k = take-all 64 (c ∷ given) k

-- An HTTP request whose first `X-Request-ID` header holds 1 to 64 characters: the application runs
-- under that id; every start of a response that it sends goes on with one more header, the last,
-- that holds the id; nothing else that it sends or raises is changed; and the log has a line for
-- the arrival and one for the end, with the last status sent, 500 before any.
pub callers_id_comes_back :
    (app : App) (context fresh_hex given : Text) (scope : Scope) (before after : Headers)
    → scope.type ≡ text "http"
    → scope.headers ≡ before ++ (header_name, given) ∷ after
    → any (λ (h : Text × Text). text_eq h.0 header_name) before ≡ false
    → given ≢ []
    → length given ≤ 64
    → let handled = call app context fresh_hex scope in
      let ran = app given scope in
      (handled.request_id ≡ given)
      × All (Carries given) handled.sent
      × (map stripped handled.sent ≡ ran.sent)
      × (handled.raised ≡ ran.raised)
      × (handled.log
          ≡ Line.arrived scope.method scope.path
            ∷ last_line scope ran.raised (status_of 500 ran.sent)
            ∷ [])
unfolding call
callers_id_comes_back app context fresh_hex given scope before after http headers first some_id
      short =
    let ran = app given scope in
    let (last, carried, same) = send_wrapper_lem given 500 ran.sent in
    let chosen : choose_id (inbound_id scope.headers) fresh_hex ≡ given =
      rw
        (headers, inbound_lem before after given first, choose_lem given fresh_hex some_id short) in
    let ended : call app context fresh_hex scope ≡ under app scope given =
      rw (http, text_eq_refl, chosen) in
    rw ended (refl, carried, same, refl, rw last refl)
