-- ===== src/Errors/Envelope/Details.antt =====
-- What an error tells the client, and what it keeps back.
use crypto_auto_trader.Base.{◌≡◌, refl, sym, ◌∙◌, ap, Option, none, some, List, [], ◌∷◌, map}
use crypto_auto_trader.Text.{Text, text}
use crypto_auto_trader.Json.{Json}
use crypto_auto_trader.Errors.{Exc}
use crypto_auto_trader.Errors.Envelope.{
  FieldError, Detail, or_else, detail, joined, validation_details, make_response, error_response,
}

-- An entry without the value that was submitted.
abbrev pub without_input : FieldError → FieldError
without_input e = record e { input = Json.null }

validation_details-without_input :
    (es : List FieldError) → validation_details (map without_input es) ≡ validation_details es
unfolding validation_details
validation_details-without_input [] = refl
validation_details-without_input (e ∷ es) = rw (validation_details-without_input es) refl

response-without_input :
    (request_id : Text) (es : List FieldError) (e : Exc)
    → error_response request_id (map without_input es) e ≡ error_response request_id es e
unfolding error_response
response-without_input request_id es Exc.request_validation =
    rw validation_details-without_input refl
response-without_input request_id es (Exc.app c message) = refl
response-without_input request_id es _ = refl

-- What the client is told of an entry: its place, its message and its type.
abbrev pub told : FieldError → Detail
told e = record {
  field = joined e.loc;
  message = elim e.msg [ none ↦ text "Invalid value" | some m ↦ m ];
  type = elim e.type [ none ↦ text "value_error" | some t ↦ t ];
}

value_or : (o : Option Text) (d : Text) → or_else o d ≡ (elim o [ none ↦ d | some m ↦ m ])
value_or none d = refl
value_or (some m) d = refl

detail-told : (e : FieldError) → detail e ≡ told e
detail-told e =
    ap
      (λ m. record {
        field = joined e.loc;
        message = m;
        type = or_else e.type (text "value_error");
      })
      (value_or e.msg (text "Invalid value"))
    ∙ ap (λ t. record (told e) { type = t }) (value_or e.type (text "value_error"))

validation_details-told : (es : List FieldError) → validation_details es ≡ map told es
unfolding validation_details
validation_details-told [] = refl
validation_details-told (e ∷ es) = rw (detail-told e, validation_details-told es) refl

-- The `input` field of a validation error, where pydantic repeats what was submitted, never comes
-- back: whatever the error, two lists of validation errors that differ only in this field become
-- the same response. And nothing else of them is lost: a request that failed validation is answered
-- 422, with the place, the message and the type of each error, in their order.
pub inputs_are_kept_back :
    (request_id : Text) (es es' : List FieldError) (e : Exc)
    → map without_input es ≡ map without_input es'
    → (error_response request_id es e ≡ error_response request_id es' e)
      × ((error_response request_id es Exc.request_validation).status_code ≡ 422)
      × ((error_response request_id es Exc.request_validation).body.details ≡ some (map told es))
unfolding error_response make_response
inputs_are_kept_back request_id es es' e h = (
  sym (response-without_input request_id es e)
      ∙ ap (λ xs. error_response request_id xs e) h
      ∙ response-without_input request_id es' e,
  refl,
  ap some (validation_details-told es),
)
