-- ===== src/Api/Accounts.antt =====
-- The errors of the account routes.
use crypto_auto_trader.Base.{◌≡◌, refl, true, Option, none, some, Bool-cases, inl, inr}
use crypto_auto_trader.Text.{Text}
use crypto_auto_trader.Models.{User}
use crypto_auto_trader.Errors.{AppErrorClass, Exc, Result, ok, err}
use crypto_auto_trader.Host.{Host}
use crypto_auto_trader.World.Fails.{
  OrValue, Fails, Fails-lift, Fails-try, Fails-commit_insert, fails_rules,
}
use crypto_auto_trader.Security.{Crypto, password_within_bcrypt_limit, hash_password}
use crypto_auto_trader.Auth.{
  registered, register_unless, register_user, login_as, authenticate_user, issue_access_token,
  get_user_by_email,
}
use crypto_auto_trader.Routes.{register_valid, login_valid}
use crypto_auto_trader.Api.Faults.{is_fault}

-- A kind of errors with those of the account routes in it.
pub record HasAccounts (P : Exc → Type 0) : Type 0 where
  pub fault : (e : Exc) → is_fault e ≡ true → P e
  pub invalid : P Exc.request_validation
  pub session : (m : Text) → P (Exc.app AppErrorClass.authentication m)
  pub taken : (m : Text) → P (Exc.app AppErrorClass.email_already_registered m)

module _ (P : Exc → Type 0) (kind : HasAccounts P) (host : Host) (crypto : Crypto) where
  OrValue-hash_password : (password : Text) → OrValue P (hash_password crypto password)
  unfolding hash_password
  OrValue-hash_password password = elim (Bool-cases (password_within_bcrypt_limit password)) [
    | inl e ↦ rw e tt
    | inr e ↦ rw e (kind.fault Exc.value_error refl)
  ]

  Fails-registered : (r : Result User) → OrValue P r → Fails P (registered host crypto r)
  Fails-registered (ok user) h = search fails_rules
  Fails-registered (err Exc.integrity_error) h = search (fails_rules, kind.taken)
  Fails-registered (err e) h = search (fails_rules, h)

  Fails-register_unless :
      (email password : Text) (o : Option User)
      → Fails P (register_unless host crypto email password o)
  Fails-register_unless email password (some user) = search (fails_rules, kind.taken)
  Fails-register_unless email password none =
      search
        (
          fails_rules,
          Fails-lift,
          OrValue-hash_password,
          Fails-try,
          Fails-registered,
          Fails-commit_insert P host _ (kind.fault Exc.sqlalchemy_error refl)
              (kind.fault Exc.integrity_error refl),
        )
        depth 7

  pub Fails-register_valid : (o : Option (Text × Text)) → Fails P (register_valid host crypto o)
  unfolding register_user get_user_by_email
  Fails-register_valid none = search (fails_rules, kind.invalid)
  Fails-register_valid (some (email, password)) = search (fails_rules, Fails-register_unless)

  Fails-login_as : (password : Text) (o : Option User) → Fails P (login_as host crypto password o)
  Fails-login_as password none = search (fails_rules, kind.session)
  Fails-login_as password (some user) = search (fails_rules, kind.session)

  pub Fails-login_valid : (o : Option (Text × Text)) → Fails P (login_valid host crypto o)
  unfolding authenticate_user get_user_by_email issue_access_token
  Fails-login_valid none = search (fails_rules, kind.invalid)
  Fails-login_valid (some (email, password)) = search (fails_rules, Fails-login_as)
