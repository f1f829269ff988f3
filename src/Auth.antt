-- ===== src/Auth.antt =====
-- app/services/auth_service.py, app/schemas/user.py and app/dependencies/auth.py: registration,
-- login, and the user behind a bearer token.
pub mod Accounts
pub mod Sessions
pub mod Registration
pub mod Users
use crypto_auto_trader.Base.{
  ℕ, ◌+◌, ◌/◌, Bool, true, false, not, ◌&&◌, ◌||◌, Option, none, some, List, [], ◌∷◌, leb, ◌==◌,
  if◌then◌else◌, is_some, length,
}
use crypto_auto_trader.Base.Int.{ℤ, pos, negsuc}
use crypto_auto_trader.Text.{Text, text, text_eq, strip}
use crypto_auto_trader.Models.{User}
use crypto_auto_trader.Errors.{AppErrorClass, Exc, Result, ok, err}
use crypto_auto_trader.Errors.Envelope.{app_message}
use crypto_auto_trader.Store.{Db, find, insert_user}
use crypto_auto_trader.Host.{Host}
use crypto_auto_trader.World.{
  World, Exec, pure, raise, lift, gets, attempt, commit_insert, ◌>>=◌, ◌>>◌,
}
use crypto_auto_trader.Security.{
  Crypto, password_within_bcrypt_limit, hash_password, verify_password, create_access_token,
  decode_access_token,
}

-- `value.strip().lower()`
abbrev pub normalise_email : Host → Text → Text
normalise_email host email = host.lower (strip email)

-- The validators of `UserCreate`, behind pydantic's check of the address.
unfoldable pub validate_user_create : Host → Text → Text → Option (Text × Text)
validate_user_create host email password =
    if leb 8 (length password) && leb (length password) 72 && password_within_bcrypt_limit password
    then some (normalise_email host email, password)
    else none

abbrev pub has_email : Text → User → Bool
has_email email u = text_eq u.email email

abbrev pub has_user_id : ℤ → User → Bool
has_user_id (pos n) u = u.id == n
has_user_id (negsuc _) u = false

-- The `Authorization` header as FastAPI splits it.
pub record Credentials : Type 0 where
  pub scheme : Text
  pub credentials : Text

pub record TokenResponse : Type 0 where
  pub access_token : Text
  pub token_type : Text
  pub expires_in : ℕ

abbrev already_registered : Exc
already_registered =
    Exc.app AppErrorClass.email_already_registered
      (app_message AppErrorClass.email_already_registered)

abbrev pub unauthenticated : Text → Exc
unauthenticated message = Exc.app AppErrorClass.authentication message

abbrev pub token_response : Text × ℕ → TokenResponse
token_response (token, expires_in) = record {
  access_token = token;
  token_type = text "bearer";
  expires_in = expires_in;
}

module _ (host : Host) (crypto : Crypto) where
  -- `get_user_by_email`
  unfoldable pub get_user_by_email : Text → Exec (Option User)
  get_user_by_email email = gets (λ w. find (has_email (normalise_email host email)) w.db.users)

  -- `get_user_by_id`
  unfoldable pub get_user_by_id : ℤ → Exec (Option User)
  get_user_by_id user_id = gets (λ w. find (has_user_id user_id) w.db.users)

  abbrev pub new_user : Text → Text → ℕ → User
  new_user email password_hash now = record {
    id = 0;
    email = email;
    password_hash = password_hash;
    is_active = true;
    created_at = now;
    updated_at = now;
  }

  abbrev pub registered : Result User → Exec User
  registered (ok user) = pure user
  registered (err Exc.integrity_error) = raise already_registered
  registered (err e) = raise e

  abbrev pub insert_account : Text → Text → Exec User
  insert_account email password = do
    password_hash ← lift (hash_password crypto password)
    now ← gets (λ w. w.clock)
    r ← attempt (commit_insert host (insert_user (new_user email password_hash now)))
    registered r

  abbrev pub register_unless : Text → Text → Option User → Exec User
  register_unless email password (some _) = raise already_registered
  register_unless email password none = insert_account email password

  -- `register_user`
  unfoldable pub register_user : Text → Text → Exec User
  unfolding get_user_by_email
  register_user email password = do
    existing ← get_user_by_email (normalise_email host email)
    register_unless (normalise_email host email) password existing

  abbrev pub login_as : Text → Option User → Exec User
  login_as password none = raise (unauthenticated (text "Incorrect email or password."))
  login_as password (some user) =
      if not (verify_password crypto password user.password_hash)
      then raise (unauthenticated (text "Incorrect email or password."))
      else if not user.is_active
      then raise (unauthenticated (text "This account is deactivated."))
      else pure user

  -- `authenticate_user`
  unfoldable pub authenticate_user : Text → Text → Exec User
  unfolding get_user_by_email
  authenticate_user email password = do user ← get_user_by_email email; login_as password user

  -- `issue_access_token`; the clock counts milliseconds.
  unfoldable pub issue_access_token : User → Exec TokenResponse
  issue_access_token user = do
    now ← gets (λ w. w.clock)
    pure (token_response (create_access_token crypto host (now / 1000) user.id))

  abbrev token_user : Option User → Exec User
  token_user none = raise (unauthenticated (text "Invalid authentication token."))
  token_user (some user) =
      if not user.is_active
      then raise (unauthenticated (text "This account is deactivated."))
      else pure user

  abbrev subject_user : Result ℤ → Exec User
  subject_user (ok user_id) = do user ← get_user_by_id user_id; token_user user
  subject_user (err (Exc.token_error reason)) = raise (unauthenticated reason)
  subject_user (err e) = raise e

  -- `get_current_user`
  unfoldable pub get_current_user : Option Credentials → Exec User
  unfolding get_user_by_id
  get_current_user none = raise (unauthenticated (text "Missing bearer token."))
  get_current_user (some c) =
      if text_eq c.credentials []
      then raise (unauthenticated (text "Missing bearer token."))
      else if not (text_eq (host.lower c.scheme) (text "bearer"))
      then raise (unauthenticated (text "Authorization scheme must be Bearer."))
      else (do
        now ← gets (λ w. w.clock)
        subject_user (decode_access_token crypto host (now / 1000) c.credentials))
