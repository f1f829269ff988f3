-- ===== src/World/Fails.antt =====
-- Which exceptions a call may end with: rules for each way to build a call.
use crypto_auto_trader.Base.{
  Bool, true, false, Option, none, some, Bool-cases, inl, inr, if◌then◌else◌,
}
use crypto_auto_trader.Errors.{Exc, Result, ok, err}
use crypto_auto_trader.Store.{Db}
use crypto_auto_trader.Host.{Request, Host}
use crypto_auto_trader.World.{
  World, Exec, pure, raise, lift, gets, attempt, modify, send, inserted, commit, commit_insert,
  ◌>>=◌,
}

-- A value, or an error of the kind.
abbrev pub OrValue : {A : Type 0} → (Exc → Type 0) → Result A → Type 0
OrValue P (ok a) = Unit
OrValue P (err e) = P e

pub record Fails (P : Exc → Type 0) {A : Type 0} (m : Exec A) : Type 0 where
  pub holds : (w : World) → OrValue P (m w).0

module _ (P : Exc → Type 0) {A : Type 0} where
  pub Fails-pure : (a : A) → Fails P (pure a)
  unfolding pure
  Fails-pure a = record { holds = λ w. tt }

  pub Fails-raise : (e : Exc) → P e → Fails P (raise {A = A} e)
  unfolding raise
  Fails-raise e p = record { holds = λ w. p }

  pub Fails-lift : (r : Result A) → OrValue P r → Fails P (lift r)
  unfolding lift
  Fails-lift r p = record { holds = λ w. p }

  pub Fails-gets : (f : World → A) → Fails P (gets f)
  unfolding gets
  Fails-gets f = record { holds = λ w. tt }

  pub Fails-attempt : (m : Exec A) → Fails P (attempt m)
  unfolding attempt
  Fails-attempt m = record { holds = λ w. tt }

  pub Fails-if : (b : Bool) (m k : Exec A) → Fails P m → Fails P k → Fails P (if b then m else k)
  Fails-if true m k pm pk = pm
  Fails-if false m k pm pk = pk

module _ (P : Exc → Type 0) {A B : Type 0} where
  rest-Fails :
      (f : A → Exec B) (r : Result A) (w' : World)
      → OrValue P r
      → ((a : A) → Fails P (f a))
      → let after : Result B × World = elim r [ ok a ↦ f a w' | err e ↦ (err e, w') ] in
        OrValue P after.0
  rest-Fails f (ok a) w' p pf = (pf a).holds w'
  rest-Fails f (err e) w' p pf = p

  pub Fails-bind :
      (m : Exec A) (f : A → Exec B) → Fails P m → ((a : A) → Fails P (f a)) → Fails P (m >>= f)
  unfolding ◌>>=◌
  Fails-bind m f pm pf = record { holds = λ w. rest-Fails f (m w).0 (m w).1 (pm.holds w) pf }

  -- What follows a `try` may raise again what it caught.
  pub Fails-try :
      (m : Exec A) (f : Result A → Exec B)
      → Fails P m
      → ((r : Result A) → OrValue P r → Fails P (f r))
      → Fails P (attempt m >>= f)
  unfolding ◌>>=◌ attempt
  Fails-try m f pm pf = record { holds = λ w. (pf (m w).0 (pm.holds w)).holds (m w).1 }

pub Fails-modify : (P : Exc → Type 0) (f : World → World) → Fails P (modify f)
unfolding modify
Fails-modify P f = record { holds = λ w. tt }

module _ (P : Exc → Type 0) (host : Host) where
  pub Fails-send : (r : Request) → Fails P (send host r)
  unfolding send
  Fails-send r = record { holds = λ w. tt }

  pub Fails-commit : P Exc.sqlalchemy_error → (f : Db → Db) → Fails P (commit host f)
  unfolding commit
  Fails-commit p f = record {
    holds =
        λ w. elim (Bool-cases (host.commit_fails w.commits)) [ inl e ↦ rw e p | inr e ↦ rw e tt ];
  }

  pub Fails-commit_insert :
      {A : Type 0} (f : Db → Option (A × Db))
      → P Exc.sqlalchemy_error
      → P Exc.integrity_error
      → Fails P (commit_insert host f)
  unfolding commit_insert
  Fails-commit_insert {A} f p q = record {
    holds = λ w. elim (Bool-cases (host.commit_fails w.commits)) [
      | inl e ↦ rw e p
      | inr e ↦ rw e (go w (f w.db))
    ];
  }
    where
      go : (w : World) (o : Option (A × Db)) → OrValue P (inserted host w o).0
      go w none = q
      go w (some (a, db)) = tt

pub ruleset fails_rules = (
  Fails-pure, Fails-raise, Fails-gets, Fails-attempt, Fails-if, Fails-bind, Fails-modify,
  Fails-send,
)
