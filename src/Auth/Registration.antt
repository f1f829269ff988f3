-- ===== src/Auth/Registration.antt =====
-- The row that a registration writes.
use crypto_auto_trader.Base.{
  ◌≡◌, refl, sym, ◌∙◌, true, false, Option, none, some, [], ◌∷◌, ◌++◌, arith, any, inl, inr,
}
use crypto_auto_trader.Text.{Text, text_eq}
use crypto_auto_trader.Models.{User}
use crypto_auto_trader.Errors.{Exc, Result, ok, err, Result-cases}
use crypto_auto_trader.Store.{insert_user}
use crypto_auto_trader.Store.Laws.{insert_user_inv}
use crypto_auto_trader.Host.{Host}
use crypto_auto_trader.World.{World, pure, raise, commit_insert}
use crypto_auto_trader.World.Runs.{
  commit_insert_inv, bind-gets, bind-attempt, bind-lift_ok, bind-lift_err,
}
use crypto_auto_trader.Security.{Crypto, hash_password}
use crypto_auto_trader.Auth.{
  normalise_email, new_user, registered, insert_account, register_unless, get_user_by_email,
  register_user,
}

module _ (host : Host) (crypto : Crypto) where
  registered_inv :
      (r : Result User) (user : User) (v w' : World)
      → registered host crypto r v ≡ (ok user, w')
      → (r ≡ ok user) × (v ≡ w')
  unfolding pure raise
  registered_inv (ok u) user v w' h = ground arith
  registered_inv (err Exc.integrity_error) user v w' h = cc
  registered_inv (err e) user v w' h = cc

  insert_account_inv :
      (email password : Text) (user : User) (w w' : World)
      → insert_account host crypto email password w ≡ (ok user, w')
      → (password_hash : Text) × (hash_password crypto password ≡ ok password_hash)
        × (commit_insert host (insert_user (new_user host crypto email password_hash w.clock)) w
            ≡ (ok user, w'))
  insert_account_inv email password user w w' h =
      elim (Result-cases (hash_password crypto password)) [
        | inl (password_hash, hashed) ↦
            let u = new_user host crypto email password_hash w.clock in
            let (r, v) = commit_insert host (insert_user u) w in
            let ran : insert_account host crypto email password w ≡ registered host crypto r v =
              rw (hashed, bind-lift_ok, bind-gets, bind-attempt) in
            let (inserted, same) = registered_inv r user v w' (sym ran ∙ h) in
            (password_hash, hashed, rw (inserted, same))
        | inr (e, failed) ↦
            let ran : insert_account host crypto email password w ≡ (err e, w) =
              rw (failed, bind-lift_err) in
            cc (sym ran ∙ h)
      ]

  register_unless_inv :
      (email password : Text) (o : Option User) (user : User) (w w' : World)
      → register_unless host crypto email password o w ≡ (ok user, w')
      → (o ≡ none) × (insert_account host crypto email password w ≡ (ok user, w'))
  unfolding raise
  register_unless_inv email password none user w w' h = (refl, h)
  register_unless_inv email password (some u) user w w' h = cc

-- A registration that succeeds has added one row at the end of the table: under the next id, with
-- the normalised address, which no row had before, the hash of the password, and active. It has
-- changed no trade and sent nothing.
pub register_user_sound :
    (host : Host) (crypto : Crypto) (email password : Text) (user : User) (w w' : World)
    → register_user host crypto email password w ≡ (ok user, w')
    → (user.id ≡ w.db.next_user_id)
      × (user.email ≡ normalise_email host email)
      × (hash_password crypto password ≡ ok user.password_hash)
      × (user.is_active ≡ true)
      × (any (λ (v : User). text_eq user.email v.email) w.db.users ≡ false)
      × (w'.db.users ≡ w.db.users ++ user ∷ [])
      × (w'.db.trades ≡ w.db.trades)
      × (w'.requests ≡ w.requests)
unfolding register_user get_user_by_email
register_user_sound host crypto email password user w w' h =
    let address = normalise_email host email in
    let (_, h') =
      register_unless_inv host crypto address password _ user w w' (sym (bind-gets _ _ w) ∙ h) in
    let (password_hash, hashed, inserted) =
      insert_account_inv host crypto address password user w w' h' in
    let u = new_user host crypto address password_hash w.clock in
    let (db, row, after) = commit_insert_inv host (insert_user u) w w' user inserted in
    let (named, users, trades, _, free) = insert_user_inv u user w.db db row in
    ground (arith, named, users, trades, free, hashed, after)
