-- ===== src/Routes/SignUp.antt =====
-- An account from its registration to a request in its name.
use crypto_auto_trader.Base.{
  ℕ, ◌+◌, ◌*◌, ◌/◌, ◌≤◌, ◌<◌, ◌≡◌, ◌≢◌, refl, ap, ◌∙◌, true, false, Option, none, some, [], arith,
  ==_iff, All, Bool-cases, inl, inr,
}
use crypto_auto_trader.Base.Int.{pos}
use crypto_auto_trader.Text.{Text, text, text_eq, text_eq_iff, text_eq_refl}
use crypto_auto_trader.Numbers.{digits}
use crypto_auto_trader.Models.{User}
use crypto_auto_trader.Errors.{ok}
use crypto_auto_trader.Store.{find}
use crypto_auto_trader.Store.Rows.{find-middle}
use crypto_auto_trader.Auth.Users.{unnamed, unnumbered}
use crypto_auto_trader.Host.{Host}
use crypto_auto_trader.World.{World, raise}
use crypto_auto_trader.World.Runs.{bind_ok, bind_inv, bind-gets, run-pure, pure_inv}
use crypto_auto_trader.Security.{
  Claims, Decoded, Crypto, issued_claims, hash_password, verify_password, create_access_token,
  decode_access_token,
}
use crypto_auto_trader.Security.Tokens.{claim_fields, decode-create_access_token}
use crypto_auto_trader.Auth.{
  normalise_email, has_email, has_user_id, validate_user_create, register_user, issue_access_token,
  TokenResponse, token_response, Credentials,
}
use crypto_auto_trader.Auth.Accounts.{account, authenticate_user_iff}
use crypto_auto_trader.Auth.Registration.{register_user_sound}
use crypto_auto_trader.Auth.Sessions.{session_result, run-get_current_user}
use crypto_auto_trader.Routes.{
  UserRead, user_read, validate_login, register_valid, register, login, read_current_user,
}

-- `Authorization: Bearer <token>`
abbrev pub with_token : Text → Credentials
with_token token = record { scheme = text "Bearer"; credentials = token }

not_empty : (token : Text) → token ≢ [] → text_eq token [] ≡ false
not_empty token h = elim (Bool-cases (text_eq token [])) [
  | inl e ↦ absurd (h ((text_eq_iff token []).0 e))
  | inr e ↦ e
]

module _ (host : Host) (crypto : Crypto) where
  verify-hash_password :
      (password password_hash : Text)
      → crypto.checkpw password (crypto.hashpw password) ≡ some true
      → hash_password crypto password ≡ ok password_hash
      → verify_password crypto password password_hash ≡ true
  unfolding hash_password verify_password
  verify-hash_password password password_hash fits h = ground (arith, fits, h)

  register_valid_inv :
      (o : Option (Text × Text)) (r : UserRead) (w w' : World)
      → register_valid host crypto o w ≡ (ok r, w')
      → (given : Text × Text) × (user : User) × (o ≡ some given)
        × (r ≡ user_read user)
        × (register_user host crypto given.0 given.1 w ≡ (ok user, w'))
  unfolding raise
  register_valid_inv none r w w' h = cc
  register_valid_inv (some (email, password)) r w w' h =
      let (user, v, ran, read) = bind_inv (register_user host crypto email password) _ w w' r h in
      let (same, unchanged) = pure_inv (user_read user) r v w' read in
      ((email, password), user, refl, same, rw unchanged ran)

  validated :
      (email password : Text) (given : Text × Text)
      → validate_user_create host email password ≡ some given
      → (given ≡ (normalise_email host email, password))
        × (validate_login host email password ≡ some given)
  unfolding validate_user_create validate_login
  validated email password given h = ground arith

  run-login :
      (email password : Text) (user : User) (w : World)
      → validate_login host email password ≡ some (normalise_email host email, password)
      → account host (normalise_email host email) w ≡ some user
      → verify_password crypto password user.password_hash ≡ true
      → user.is_active ≡ true
      → login host crypto email password w ≡ issue_access_token host crypto user w
  unfolding login
  run-login email password user w valid found fits active =
      let ended =
        (authenticate_user_iff host crypto (normalise_email host email) password user w).1
          (found, fits, active) in
      rw (valid, bind_ok _ _ w w user ended)

  run-issue_access_token :
      (user : User) (w : World)
      → issue_access_token host crypto user w
        ≡ (ok (token_response (create_access_token crypto host (w.clock / 1000) user.id)), w)
  unfolding issue_access_token
  run-issue_access_token user w = rw (bind-gets, run-pure)

  issued_not_empty :
      (now user_id : ℕ)
      → ((c : Claims) (secret : Text) → crypto.encode c secret ≢ [])
      → (create_access_token crypto host now user_id).0 ≢ []
  unfolding create_access_token
  issued_not_empty now user_id filled =
      filled (issued_claims crypto host now user_id) host.settings.jwt_secret

  run-read_current_user :
      (token : Text) (user : User) (w : World)
      → host.lower (text "Bearer") ≡ text "bearer"
      → token ≢ []
      → decode_access_token crypto host (w.clock / 1000) token ≡ ok (pos user.id)
      → find (has_user_id (pos user.id)) w.db.users ≡ some user
      → user.is_active ≡ true
      → read_current_user host crypto (some (with_token token)) w ≡ (ok (user_read user), w)
  unfolding read_current_user
  run-read_current_user token user w bearer given decoded found active =
      let c = with_token token in
      let session : session_result host crypto (some c) w ≡ ok user =
        rw (not_empty token given, bearer, text_eq_refl, decoded, found, active) in
      bind_ok _ _ w w user (run-get_current_user host crypto (some c) w ∙ ap (λ x. (x, w)) session)
      ∙ run-pure (user_read user) w

  -- The account in the table that a registration leaves, found by its address and by its id.
  signed_up :
      (email password : Text) (r : UserRead) (w w' : World)
      → crypto.checkpw password (crypto.hashpw password) ≡ some true
      → All (λ (u : User). u.id < w.db.next_user_id) w.db.users
      → register host crypto email password w ≡ (ok r, w')
      → (user : User) × (r ≡ user_read user)
        × (account host (normalise_email host email) w' ≡ some user)
        × (find (has_user_id (pos user.id)) w'.db.users ≡ some user)
        × (verify_password crypto password user.password_hash ≡ true)
        × (user.is_active ≡ true)
        × (validate_login host email password ≡ some (normalise_email host email, password))
  unfolding register
  signed_up email password r w w' fits ids h =
      let (given, user, checked, same, ran) =
        register_valid_inv (validate_user_create host email password) r w w' h in
      let (as_given, valid) = validated email password given checked in
      let ran' : register_user host crypto (normalise_email host email) password w ≡ (ok user, w') =
        rw as_given at ran in
      let (named, addressed, hashed, active, free, users, _, _) =
        register_user_sound host crypto (normalise_email host email) password user w w' ran' in
      let address = normalise_email host (normalise_email host email) in
      let by_email =
        find-middle (has_email address) w.db.users [] user
          (unnamed address w.db.users (rw addressed at free))
          (rw (addressed, text_eq_refl address)) in
      let by_id =
        find-middle (has_user_id (pos user.id)) w.db.users [] user
          (unnumbered user.id w.db.users (rw named ids)) ((==_iff user.id user.id).1 refl) in
      (
        user,
        same,
        ap (find (has_email address)) users ∙ by_email,
        ap (find (has_user_id (pos user.id))) users ∙ by_id,
        verify-hash_password password user.password_hash fits hashed,
        active,
        rw as_given at valid,
      )

-- After a registration that succeeds, for as long as the table of users stays as it left it: a
-- login with the same address and password succeeds, changes nothing, and answers a token; and from
-- then on until the token's lifetime is over, a request with it passes for the account that was
-- registered. bcrypt accepts a password against its own hash; PyJWT gives back the claims that it
-- encoded under the same secret from the time of their issue until they expire, in a token that is
-- not empty; Python's `int` reads decimal digits, and `lower` makes "bearer" of "Bearer". The ids
-- in the table are below the next one.
pub registered_account_gets_in :
    (host : Host) (crypto : Crypto) (email password : Text) (r : UserRead) (w w' v x : World)
    → crypto.checkpw password (crypto.hashpw password) ≡ some true
    → ((c : Claims) (secret : Text) (t : ℕ)
        → c.iat ≤ t
        → t < c.exp
        → crypto.decode (crypto.encode c secret) secret t ≡ Decoded.claims (claim_fields c))
    → ((c : Claims) (secret : Text) → crypto.encode c secret ≢ [])
    → ((n : ℕ) → host.int_of_str (digits n) ≡ some (pos n))
    → host.lower (text "Bearer") ≡ text "bearer"
    → All (λ (u : User). u.id < w.db.next_user_id) w.db.users
    → register host crypto email password w ≡ (ok r, w')
    → v.db.users ≡ w'.db.users
    → x.db.users ≡ w'.db.users
    → v.clock ≤ x.clock
    → x.clock / 1000 < v.clock / 1000 + host.settings.access_token_expire_minutes * 60
    → (token : TokenResponse) × (login host crypto email password v ≡ (ok token, v))
      × (read_current_user host crypto (some (with_token token.access_token)) x ≡ (ok r, x))
registered_account_gets_in host crypto email password r w w' v x fits reads filled ints bearer ids h
      at_login later after fresh =
    let (user, same, by_email, by_id, verified, active, valid) =
      signed_up host crypto email password r w w' fits ids h in
    let address = normalise_email host (normalise_email host email) in
    let made = create_access_token crypto host (v.clock / 1000) user.id in
    let decoded =
      decode-create_access_token crypto host (v.clock / 1000) (x.clock / 1000) user.id reads ints
        (omega (arith, after)) fresh in
    let logged_in =
      run-login host crypto email password user v valid
        (ap (find (has_email address)) at_login ∙ by_email) verified active in
    let passes =
      run-read_current_user host crypto made.0 user x bearer
        (issued_not_empty host crypto (v.clock / 1000) user.id filled) decoded
        (ap (find (has_user_id (pos user.id))) later ∙ by_id) active in
    (token_response made, logged_in ∙ run-issue_access_token host crypto user v, rw same passes)
