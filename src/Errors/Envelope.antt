-- ===== src/Errors/Envelope.antt =====
-- app/core/exceptions.py: the default texts of the error classes and the response that each error
-- becomes. No error of this program carries details of its own; the log lines are left out.
pub mod Details
use crypto_auto_trader.Base.{
  ℕ, Bool, true, false, Option, none, some, List, [], ◌∷◌, ◌++◌, ◌==◌, if◌then◌else◌, map,
}
use crypto_auto_trader.Text.{Text, text}
use crypto_auto_trader.Numbers.{digits}
use crypto_auto_trader.Json.{Json}
use crypto_auto_trader.Errors.{AppErrorClass, Exc}

-- `status_code` of a class
abbrev pub app_status_code : AppErrorClass → ℕ
app_status_code AppErrorClass.authentication = 401
app_status_code AppErrorClass.authorization = 403
app_status_code AppErrorClass.resource_not_found = 404
app_status_code AppErrorClass.conflict = 409
app_status_code AppErrorClass.email_already_registered = 409
app_status_code (AppErrorClass.duplicate_signal _) = 409
app_status_code AppErrorClass.business_validation = 422
app_status_code AppErrorClass.configuration = 500

-- `error_code` of a class
abbrev pub app_error_code : AppErrorClass → Text
app_error_code AppErrorClass.authentication = text "authentication_failed"
app_error_code AppErrorClass.authorization = text "forbidden"
app_error_code AppErrorClass.resource_not_found = text "not_found"
app_error_code AppErrorClass.conflict = text "conflict"
app_error_code AppErrorClass.email_already_registered = text "email_already_registered"
app_error_code (AppErrorClass.duplicate_signal _) = text "duplicate_signal"
app_error_code AppErrorClass.business_validation = text "business_validation_failed"
app_error_code AppErrorClass.configuration = text "configuration_error"

-- `message` of a class, for a call without one
abbrev pub app_message : AppErrorClass → Text
app_message AppErrorClass.authentication = text "Not authenticated."
app_message AppErrorClass.authorization = text "You do not have access to this resource."
app_message AppErrorClass.resource_not_found = text "Resource not found."
app_message AppErrorClass.conflict = text "The request conflicts with existing state."
app_message AppErrorClass.email_already_registered =
    text "An account with this email already exists."
app_message (AppErrorClass.duplicate_signal _) = text "This signal has already been processed."
app_message AppErrorClass.business_validation = text "The request failed a business rule."
app_message AppErrorClass.configuration = text "The server is misconfigured."

-- A part of the place of a validation error: a name, or the index of an item.
pub data LocPart : Type 0 where
  name : Text → LocPart
  index : ℕ → LocPart

-- An entry of `exc.errors()`; `input` is the value that was submitted.
pub record FieldError : Type 0 where
  pub loc : List LocPart
  pub msg : Option Text
  pub type : Option Text
  pub input : Json

-- What the client is told of one.
pub record Detail : Type 0 where
  pub field : Text
  pub message : Text
  pub type : Text

-- The object under "error".
pub record ErrorBody : Type 0 where
  pub code : Text
  pub message : Text
  pub request_id : Text
  pub details : Option (List Detail)

pub record ErrorResponse : Type 0 where
  pub status_code : ℕ
  pub body : ErrorBody
  pub headers : List (Text × Text)

-- `str(part)`
abbrev str_part : LocPart → Text
str_part (LocPart.name t) = t
str_part (LocPart.index n) = digits n

-- `".".join(...)`
unfoldable pub joined : List LocPart → Text
joined [] = []
joined (part ∷ []) = str_part part
joined (part ∷ next ∷ parts) = str_part part ++ text "." ++ joined (next ∷ parts)

abbrev or_else : Option Text → Text → Text
or_else none default = default
or_else (some t) default = t

abbrev detail : FieldError → Detail
detail e = record {
  field = joined e.loc;
  message = or_else e.msg (text "Invalid value");
  type = or_else e.type (text "value_error");
}

-- The `details` of `handle_validation_error`.
unfoldable pub validation_details : List FieldError → List Detail
unfolding joined
validation_details [] = []
validation_details (e ∷ es) = detail e ∷ validation_details es

-- `isinstance(exc, AuthenticationError)`: a 401 says which scheme to use.
abbrev auth_headers : AppErrorClass → List (Text × Text)
auth_headers AppErrorClass.authentication = (text "WWW-Authenticate", text "Bearer") ∷ []
auth_headers _ = []

abbrev http_code : ℕ → Text
http_code n =
    if n == 401
    then text "authentication_failed"
    else if n == 403
    then text "forbidden"
    else if n == 404
    then text "not_found"
    else if n == 405
    then text "method_not_allowed"
    else text "http_error"

-- `_error_response`, under the request id of the context
unfoldable pub make_response :
    Text → ℕ → Text → Text → Option (List Detail) → List (Text × Text) → ErrorResponse
make_response request_id status_code error_code message details headers = record {
  status_code = status_code;
  body = record {
    code = error_code;
    message = message;
    request_id = request_id;
    details = details;
  };
  headers = headers;
}

module _ (request_id : Text) where
  -- `handle_database_error`
  abbrev database_response : ErrorResponse
  database_response =
      make_response request_id 503 (text "database_unavailable")
        (text "A database error occurred. Please retry shortly.") none []

  -- `handle_unexpected_error`
  abbrev unexpected_response : ErrorResponse
  unexpected_response =
      make_response request_id 500 (text "internal_error") (text "An unexpected error occurred.")
        none []

  -- The handlers of `register_exception_handlers`, by the class of the error. `errors` is what
  -- pydantic found wrong with the request.
  unfoldable pub error_response : List FieldError → Exc → ErrorResponse
  unfolding make_response validation_details
  error_response errors (Exc.app c message) =
      make_response request_id (app_status_code c) (app_error_code c) message none (auth_headers c)
  error_response errors Exc.request_validation =
      make_response request_id 422 (text "validation_failed")
        (text "Request payload failed validation.") (some (validation_details errors)) []
  error_response errors (Exc.http_exception n detail_text headers) =
      make_response request_id n (http_code n) detail_text none headers
  error_response errors Exc.integrity_error = database_response
  error_response errors Exc.sqlalchemy_error = database_response
  error_response errors _ = unexpected_response
