-- ===== src/World/Runs.antt =====
-- Running a call step by step: equations for each way to build one.
use crypto_auto_trader.Base.{
  ◌+◌, ◌≡◌, refl, sym, ◌∙◌, true, false, Option, none, some, arith, Bool-cases, Option-cases, inl,
  inr,
}
use crypto_auto_trader.Errors.{Exc, Result, ok, err}
use crypto_auto_trader.Store.{Db}
use crypto_auto_trader.Host.{Host}
use crypto_auto_trader.World.{
  World, Exec, pure, raise, lift, gets, attempt, commit, commit_insert, ◌>>=◌,
}

module _ {A B : Type 0} where
  abbrev pub continue : (A → Exec B) → Result A × World → Result B × World
  continue f (ok a, w) = f a w
  continue f (err e, w) = (err e, w)

  pub bind_lem : (m : Exec A) (f : A → Exec B) (w : World) → (m >>= f) w ≡ continue f (m w)
  unfolding ◌>>=◌
  bind_lem m f w = go (m w).0 (m w).1
    where
      go :
          (r : Result A) (w' : World)
          → (let after : Result B × World = elim r [ ok a ↦ f a w' | err e ↦ (err e, w') ] in after)
            ≡ continue f (r, w')
      go (ok a) w' = refl
      go (err e) w' = refl

  pub bind_ok :
      (m : Exec A) (f : A → Exec B) (w w' : World) (a : A) → m w ≡ (ok a, w') → (m >>= f) w ≡ f a w'
  bind_ok m f w w' a h = rw (bind_lem, h)

  pub bind_err :
      (m : Exec A) (f : A → Exec B) (w w' : World) (e : Exc)
      → m w ≡ (err e, w')
      → (m >>= f) w ≡ (err e, w')
  bind_err m f w w' e h = rw (bind_lem, h)

  -- A sequence that returned: its first part returned, and so did the rest.
  pub bind_inv :
      (m : Exec A) (f : A → Exec B) (w w' : World) (b : B)
      → (m >>= f) w ≡ (ok b, w')
      → (a : A) × (v : World) × (m w ≡ (ok a, v)) × (f a v ≡ (ok b, w'))
  bind_inv m f w w' b h = go (m w) refl (sym (bind_lem m f w) ∙ h)
    where
      go :
          (x : Result A × World)
          → m w ≡ x
          → continue f x ≡ (ok b, w')
          → (a : A) × (v : World) × (m w ≡ (ok a, v)) × (f a v ≡ (ok b, w'))
      go (ok a, v) e h' = (a, v, e, h')
      go (err x, v) e h' = cc

  -- What holds after a sequence: it holds where the first part fails, and where the second one ends.
  pub after-bind :
      (Q : World → Type 0) (m : Exec A) (f : A → Exec B) (w : World)
      → Q (m w).1
      → ((a : A) → (m w).0 ≡ ok a → Q (f a (m w).1).1)
      → Q ((m >>= f) w).1
  after-bind Q m f w first rest = rw bind_lem (go (m w) first rest)
    where
      go :
          (x : Result A × World)
          → Q x.1
          → ((a : A) → x.0 ≡ ok a → Q (f a x.1).1)
          → Q (continue f x).1
      go (ok a, v) first rest = rest a refl
      go (err e, v) first rest = first

  pub bind-gets : (g : World → A) (f : A → Exec B) (w : World) → (gets g >>= f) w ≡ f (g w) w
  unfolding ◌>>=◌
  bind-gets g f w = refl

  pub bind-pure : (a : A) (f : A → Exec B) (w : World) → (pure a >>= f) w ≡ f a w
  unfolding ◌>>=◌
  bind-pure a f w = refl

  pub bind-lift_ok : (a : A) (f : A → Exec B) (w : World) → (lift (ok a) >>= f) w ≡ f a w
  unfolding ◌>>=◌
  bind-lift_ok a f w = refl

  pub bind-lift_err : (e : Exc) (f : A → Exec B) (w : World) → (lift (err e) >>= f) w ≡ (err e, w)
  unfolding ◌>>=◌
  bind-lift_err e f w = refl

  -- What is done to the result afterwards leaves the state alone.
  pub world-bind-lift :
      (m : Exec A) (f : A → Result B) (w : World) → ((m >>= λ a. lift (f a)) w).1 ≡ (m w).1
  unfolding lift
  world-bind-lift m f w = rw bind_lem (go (m w))
    where
      go : (x : Result A × World) → (continue (λ a. lift (f a)) x).1 ≡ x.1
      go (ok a, w') = refl
      go (err e, w') = refl

  pub bind-attempt :
      (m : Exec A) (f : Result A → Exec B) (w : World) → (attempt m >>= f) w ≡ f (m w).0 (m w).1
  unfolding ◌>>=◌
  bind-attempt m f w = refl

module _ {A : Type 0} where
  pub run-gets : (g : World → A) (w : World) → gets g w ≡ (ok (g w), w)
  unfolding gets
  run-gets g w = refl

  pub run-pure : (a : A) (w : World) → pure a w ≡ (ok a, w)
  unfolding pure
  run-pure a w = refl

  pub pure_inv : (a b : A) (w w' : World) → pure a w ≡ (ok b, w') → (b ≡ a) × (w' ≡ w)
  unfolding pure
  pure_inv a b w w' h = ground (arith, h)

  pub run-raise : (e : Exc) (w : World) → raise {A = A} e w ≡ (err e, w)
  unfolding raise
  run-raise e w = refl

  pub run-lift : (r : Result A) (w : World) → lift r w ≡ (r, w)
  unfolding lift
  run-lift r w = refl

module _ (host : Host) where
  pub commit_ok :
      (f : Db → Db) (w : World)
      → host.commit_fails w.commits ≡ false
      → commit host f w ≡ (ok tt, record w { db = f w.db; commits = w.commits + 1 })
  unfolding commit
  commit_ok f w h = rw h

  pub commit_err :
      (f : Db → Db) (w : World)
      → host.commit_fails w.commits ≡ true
      → commit host f w ≡ (err Exc.sqlalchemy_error, record w { commits = w.commits + 1 })
  unfolding commit
  commit_err f w h = rw h

  pub commit_insert_err :
      {A : Type 0} (f : Db → Option (A × Db)) (w : World)
      → host.commit_fails w.commits ≡ true
      → commit_insert host f w ≡ (err Exc.sqlalchemy_error, record w { commits = w.commits + 1 })
  unfolding commit_insert
  commit_insert_err f w h = rw h

  pub commit_insert-none :
      {A : Type 0} (f : Db → Option (A × Db)) (w : World)
      → host.commit_fails w.commits ≡ false
      → f w.db ≡ none
      → commit_insert host f w ≡ (err Exc.integrity_error, record w { commits = w.commits + 1 })
  unfolding commit_insert
  commit_insert-none f w h e = rw (h, e)

  pub commit_insert-some :
      {A : Type 0} (f : Db → Option (A × Db)) (w : World) (a : A) (db : Db)
      → host.commit_fails w.commits ≡ false
      → f w.db ≡ some (a, db)
      → commit_insert host f w ≡ (ok a, record w { db = db; commits = w.commits + 1 })
  unfolding commit_insert
  commit_insert-some f w a db h e = rw (h, e)

  -- An INSERT that went through: its row, and the tables after it.
  pub commit_insert_inv :
      {A : Type 0} (f : Db → Option (A × Db)) (w w' : World) (a : A)
      → commit_insert host f w ≡ (ok a, w')
      → (db : Db) × (f w.db ≡ some (a, db)) × (w' ≡ record w { db = db; commits = w.commits + 1 })
  unfolding commit_insert
  commit_insert_inv f w w' a h = elim (Bool-cases (host.commit_fails w.commits)) [
    | inl down ↦ ground (arith, h, commit_insert_err f w down)
    | inr up ↦ elim (Option-cases (f w.db)) [
      | inl e ↦ ground (arith, h, commit_insert-none f w up e)
      | inr ((row, db), e) ↦ (
        db,
        ground (arith, h, commit_insert-some f w row db up e),
        ground (arith, h, commit_insert-some f w row db up e),
      )
    ]
  ]
