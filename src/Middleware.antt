-- ===== src/Middleware.antt =====
-- app/core/middleware.py: `RequestContextMiddleware` around an ASGI application, and the context
-- variable of app/core/logging_config.py. The application is a parameter; times are left out.
pub mod Trace
use crypto_auto_trader.Base.{
  ℕ, Bool, Option, none, some, List, [], ◌∷◌, ◌++◌, take, map, if◌then◌else◌,
}
use crypto_auto_trader.Text.{Text, text, text_eq}
use crypto_auto_trader.Errors.{Exc}

abbrev pub Headers : Type 0
Headers = List (Text × Text)

-- The scope of a connection: `type`, `method`, `path`, `headers`; header values are decoded.
pub record Scope : Type 0 where
  pub type : Text
  pub method : Text
  pub path : Text
  pub headers : Headers

-- A message that an application sends: `http.response.start`, or another by its type.
pub data Message : Type 0 where
  response_start : ℕ → Headers → Message
  other : Text → Message

-- What a run of an application comes to: what it sent, and what it raised in the end.
pub record Run : Type 0 where
  pub sent : List Message
  pub raised : Option Exc

-- An application runs under the request id of its context.
abbrev pub App : Type 0
App = Text → Scope → Run

-- The lines of the log.
pub data Line : Type 0 where
  arrived : Text → Text → Line
  answered : Text → Text → ℕ → Line
  failed : Text → Text → Line

-- A handled connection: the request id of the context afterwards, what was sent, raised and logged.
pub record Handled : Type 0 where
  pub request_id : Text
  pub sent : List Message
  pub raised : Option Exc
  pub log : List Line

abbrev pub header_name : Text
header_name = text "x-request-id"

-- The loop over the headers: the first of that name.
unfoldable pub inbound_id : Headers → Option Text
inbound_id [] = none
inbound_id ((name, value) ∷ headers) =
    if text_eq name header_name then some value else inbound_id headers

-- `(inbound or uuid.uuid4().hex)[:64]`
unfoldable pub choose_id : Option Text → Text → Text
choose_id none fresh_hex = take 64 fresh_hex
choose_id (some []) fresh_hex = take 64 fresh_hex
choose_id (some (c ∷ v)) fresh_hex = take 64 (c ∷ v)

-- `send_wrapper`, over the messages in their order: the last status, and what goes on.
unfoldable pub send_wrapper : Text → ℕ → List Message → ℕ × List Message
send_wrapper request_id status_code [] = (status_code, [])
send_wrapper request_id status_code (Message.response_start status headers ∷ messages) =
    let (last, sent) = send_wrapper request_id status messages in
    (last, Message.response_start status (headers ++ (text "X-Request-ID", request_id) ∷ []) ∷ sent)
send_wrapper request_id status_code (Message.other kind ∷ messages) =
    let (last, sent) = send_wrapper request_id status_code messages in
    (last, Message.other kind ∷ sent)

abbrev pub last_line : Scope → Option Exc → ℕ → Line
last_line scope none status_code = Line.answered scope.method scope.path status_code
last_line scope (some e) status_code = Line.failed scope.method scope.path

abbrev pub answer : Scope → Text → Run → Handled
answer scope request_id ran =
    let (status_code, sent) = send_wrapper request_id 500 ran.sent in
    record {
      request_id = request_id;
      sent = sent;
      raised = ran.raised;
      log = Line.arrived scope.method scope.path ∷ last_line scope ran.raised status_code ∷ [];
    }

abbrev pass_on : Text → Run → Handled
pass_on context ran = record {
  request_id = context;
  sent = ran.sent;
  raised = ran.raised;
  log = [];
}

abbrev pub under : App → Scope → Text → Handled
under app scope request_id = answer scope request_id (app request_id scope)

-- `RequestContextMiddleware.__call__`, for an id of the context and a fresh `uuid4().hex`.
unfoldable pub call : App → Text → Text → Scope → Handled
call app context fresh_hex scope =
    if text_eq scope.type (text "http")
    then under app scope (choose_id (inbound_id scope.headers) fresh_hex)
    else pass_on context (app context scope)
