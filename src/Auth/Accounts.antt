-- ===== src/Auth/Accounts.antt =====
-- Who gets in: logins, and the accounts behind them.
use crypto_auto_trader.Base.{
  ◌≡◌, ◌↔◌, ◌⊎◌, inl, inr, true, false, not, Option, none, some, arith, if◌then◌else◌, Bool-cases,
}
use crypto_auto_trader.Text.{Text, text}
use crypto_auto_trader.Models.{User}
use crypto_auto_trader.Errors.{Exc, Result, ok, err}
use crypto_auto_trader.Store.{find}
use crypto_auto_trader.Host.{Host}
use crypto_auto_trader.World.{World}
use crypto_auto_trader.World.Runs.{bind-gets, run-pure, run-raise}
use crypto_auto_trader.Security.{Crypto, verify_password}
use crypto_auto_trader.Auth.{
  has_email, normalise_email, unauthenticated, login_as, get_user_by_email, authenticate_user,
}

abbrev wrong_login : Exc
wrong_login = unauthenticated (text "Incorrect email or password.")

abbrev login_result : Crypto → Text → Option User → Result User
login_result crypto password none = err wrong_login
login_result crypto password (some user) =
    if not (verify_password crypto password user.password_hash)
    then err wrong_login
    else if not user.is_active
    then err (unauthenticated (text "This account is deactivated."))
    else ok user

-- The account that the address names.
abbrev pub account : Host → Text → World → Option User
account host email w = find (has_email (normalise_email host email)) w.db.users

module _ (host : Host) (crypto : Crypto) (email password : Text) (w : World) where
  run-login_as :
      (o : Option User) → login_as host crypto password o w ≡ (login_result crypto password o, w)
  run-login_as none = rw run-raise
  run-login_as (some user) =
      elim (Bool-cases (verify_password crypto password user.password_hash)) [
        | inl e ↦ elim (Bool-cases user.is_active) [
          | inl a ↦ rw (e, a, run-pure)
          | inr a ↦ rw (e, a, run-raise)
        ]
        | inr e ↦ rw (e, run-raise)
      ]

  run-authenticate_user :
      authenticate_user host crypto email password w
      ≡ (login_result crypto password (account host email w), w)
  unfolding authenticate_user get_user_by_email
  run-authenticate_user = rw (bind-gets, run-login_as)

login_iff :
    (crypto : Crypto) (password : Text) (user : User) (w : World) (o : Option User)
    → (let ended : Result User × World = (login_result crypto password o, w) in
        ended ≡ (ok user, w))
      ↔ ((o ≡ some user)
          × (verify_password crypto password user.password_hash ≡ true)
          × (user.is_active ≡ true))
login_iff crypto password user w o = ground arith

-- A login succeeds, with a user, exactly when the address names that user, the password fits the
-- stored hash, and the account is active. It changes nothing.
pub authenticate_user_iff :
    (host : Host) (crypto : Crypto) (email password : Text) (user : User) (w : World)
    → (authenticate_user host crypto email password w ≡ (ok user, w)) ↔ (
        (account host email w ≡ some user)
        × (verify_password crypto password user.password_hash ≡ true)
        × (user.is_active ≡ true))
authenticate_user_iff host crypto email password user w =
    rw (run-authenticate_user host crypto email password w)
      (login_iff crypto password user w (account host email w))

-- A login with an unknown address and one with a wrong password cannot be told apart: the same error,
-- and no change.
pub login_hides_accounts :
    (host : Host) (crypto : Crypto) (email password : Text) (w : World)
    → (account host email w ≡ none)
      ⊎ ((user : User) × (account host email w ≡ some user)
          × (verify_password crypto password user.password_hash ≡ false))
    → authenticate_user host crypto email password w
      ≡ (err (unauthenticated (text "Incorrect email or password.")), w)
login_hides_accounts host crypto email password w (inl e) =
    rw (run-authenticate_user host crypto email password w, e)
login_hides_accounts host crypto email password w (inr (user, e, wrong)) =
    rw (run-authenticate_user host crypto email password w, e, wrong)
