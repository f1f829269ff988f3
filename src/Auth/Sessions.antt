-- ===== src/Auth/Sessions.antt =====
-- Who is behind a bearer token.
use crypto_auto_trader.Base.{
  ◌/◌, ◌≡◌, refl, ap, sym, ◌∙◌, inl, inr, true, not, Option, none, some, List, [], arith,
  if◌then◌else◌, Bool-cases,
}
use crypto_auto_trader.Base.Int.{ℤ}
use crypto_auto_trader.Text.{text, text_eq, text_eq_iff}
use crypto_auto_trader.Models.{User}
use crypto_auto_trader.Errors.{Exc, Result, ok, err}
use crypto_auto_trader.Store.{find}
use crypto_auto_trader.Host.{Host}
use crypto_auto_trader.World.{World}
use crypto_auto_trader.World.Runs.{bind-gets, run-pure, run-raise}
use crypto_auto_trader.Security.{Crypto, decode_access_token}
use crypto_auto_trader.Auth.{
  Credentials, has_user_id, unauthenticated, token_user, subject_user, get_user_by_id,
  get_current_user,
}

abbrev pub token_result : Option User → Result User
token_result none = err (unauthenticated (text "Invalid authentication token."))
token_result (some user) =
    if not user.is_active
    then err (unauthenticated (text "This account is deactivated."))
    else ok user

abbrev pub subject_result : List User → Result ℤ → Result User
subject_result users (ok user_id) = token_result (find (has_user_id user_id) users)
subject_result users (err (Exc.token_error reason)) = err (unauthenticated reason)
subject_result users (err e) = err e

module _ (host : Host) (crypto : Crypto) where
  run-token_user : (o : Option User) (w : World) → token_user host crypto o w ≡ (token_result o, w)
  run-token_user none w = rw run-raise
  run-token_user (some user) w = elim (Bool-cases user.is_active) [
    | inl e ↦ rw (e, run-pure)
    | inr e ↦ rw (e, run-raise)
  ]

  token_result-ok :
      (o : Option User) (user : User)
      → token_result o ≡ ok user
      → (user.is_active ≡ true) × (o ≡ some user)
  token_result-ok o user h = ground arith

  run-subject_user :
      (r : Result ℤ) (w : World) → subject_user host crypto r w ≡ (subject_result w.db.users r, w)
  unfolding get_user_by_id
  run-subject_user (ok user_id) w = rw (bind-gets, run-token_user)
  run-subject_user (err (Exc.token_error reason)) w = rw run-raise
  run-subject_user (err _) w = rw run-raise

  abbrev pub session_result : Option Credentials → World → Result User
  session_result none w = err (unauthenticated (text "Missing bearer token."))
  session_result (some c) w =
      if text_eq c.credentials []
      then err (unauthenticated (text "Missing bearer token."))
      else if not (text_eq (host.lower c.scheme) (text "bearer"))
      then err (unauthenticated (text "Authorization scheme must be Bearer."))
      else subject_result w.db.users
          (decode_access_token crypto host (w.clock / 1000) c.credentials)

  pub run-get_current_user :
      (o : Option Credentials) (w : World)
      → get_current_user host crypto o w ≡ (session_result o w, w)
  unfolding get_current_user
  run-get_current_user none w = rw run-raise
  run-get_current_user (some c) w = elim (Bool-cases (text_eq c.credentials [])) [
    | inl e ↦ rw (e, run-raise)
    | inr e ↦ elim (Bool-cases (text_eq (host.lower c.scheme) (text "bearer"))) [
      | inl bearer ↦ rw (e, bearer, bind-gets, run-subject_user)
      | inr other ↦ rw (e, other, run-raise)
    ]
  ]

  subject_result-ok :
      (users : List User) (r : Result ℤ) (user : User)
      → subject_result users r ≡ ok user
      → (user.is_active ≡ true) × ((k : ℤ) × (r ≡ ok k) × (find (has_user_id k) users ≡ some user))
  subject_result-ok users (ok k) user h =
      let (active, found) = token_result-ok (find (has_user_id k) users) user h in
      (active, (k, refl, found))
  subject_result-ok users (err (Exc.token_error reason)) user h = ground arith
  subject_result-ok users (err e) user h = ground arith

  bearer_only :
      (c : Credentials) (user : User) (w : World)
      → session_result (some c) w ≡ ok user
      → (text_eq (host.lower c.scheme) (text "bearer") ≡ true)
        × (subject_result w.db.users
              (decode_access_token crypto host (w.clock / 1000) c.credentials)
            ≡ ok user)
  bearer_only c user w h = ground arith

-- A request passes for a user only with a bearer token that is read back as the id of that user, who
-- is in the table and active; nothing is changed by it.
pub get_current_user_sound :
    (host : Host) (crypto : Crypto) (given : Option Credentials) (user : User) (w w' : World)
    → get_current_user host crypto given w ≡ (ok user, w')
    → (w' ≡ w)
      × (user.is_active ≡ true)
      × ((c : Credentials) × (k : ℤ) × (given ≡ some c)
          × (host.lower c.scheme ≡ text "bearer")
          × (decode_access_token crypto host (w.clock / 1000) c.credentials ≡ ok k)
          × (find (has_user_id k) w.db.users ≡ some user))
get_current_user_sound host crypto none user w w' h = ground (
  arith,
  ap (λ (x : Result User × World). x.0) (sym (run-get_current_user host crypto none w) ∙ h),
)
get_current_user_sound host crypto (some c) user w w' h =
    let ended = sym (run-get_current_user host crypto (some c) w) ∙ h in
    let (bearer, subject) =
      bearer_only host crypto c user w (ap (λ (x : Result User × World). x.0) ended) in
    let (active, (k, token, found)) = subject_result-ok host crypto w.db.users _ user subject in
    (
      sym (ap (λ (x : Result User × World). x.1) ended),
      active,
      (c, k, refl, (text_eq_iff (host.lower c.scheme) (text "bearer")).0 bearer, token, found),
    )
