-- ===== src/World/Gives.antt =====
-- What a call returns, if it returns: rules for each way to build a call.
use crypto_auto_trader.Base.{◌≡◌, refl, ◌∙◌, Bool, true, false, if◌then◌else◌}
use crypto_auto_trader.Errors.{Exc, Result, ok, err}
use crypto_auto_trader.World.Leaves.{Leaves}
use crypto_auto_trader.World.{World, Exec, pure, raise, lift, gets, attempt, ◌>>=◌}

-- An error, or a value of the kind.
abbrev pub OrError : {A : Type 0} → (A → Type 0) → Result A → Type 0
OrError P (ok a) = P a
OrError P (err e) = Unit

pub record Gives {A : Type 0} (P : A → Type 0) (m : Exec A) : Type 0 where
  pub holds : (w : World) → OrError P (m w).0

module _ {A : Type 0} (P : A → Type 0) where
  pub Gives-pure : (a : A) → P a → Gives P (pure a)
  unfolding pure
  Gives-pure a p = record { holds = λ w. p }

  pub Gives-raise : (e : Exc) → Gives P (raise e)
  unfolding raise
  Gives-raise x = record { holds = λ w. tt }

  pub Gives-lift : (r : Result A) → OrError P r → Gives P (lift r)
  unfolding lift
  Gives-lift r p = record { holds = λ w. p }

  pub Gives-gets : (f : World → A) → ((w : World) → P (f w)) → Gives P (gets f)
  unfolding gets
  Gives-gets f p = record { holds = λ w. p w }

  -- A `try` hands on an error, or a value of the kind.
  pub Gives-attempt : (m : Exec A) → Gives P m → Gives (OrError P) (attempt m)
  unfolding attempt
  Gives-attempt m p = record { holds = λ w. p.holds w }

  pub Gives-if : (b : Bool) (m k : Exec A) → Gives P m → Gives P k → Gives P (if b then m else k)
  Gives-if true m k pm pk = pm
  Gives-if false m k pm pk = pk

module _ {A B : Type 0} (P : A → Type 0) (Q : B → Type 0) where
  rest-Gives :
      (f : A → Exec B) (r : Result A) (w' : World)
      → OrError P r
      → ((a : A) → P a → Gives Q (f a))
      → let after : Result B × World = elim r [ ok a ↦ f a w' | err e ↦ (err e, w') ] in
        OrError Q after.0
  rest-Gives f (ok a) w' p pf = (pf a p).holds w'
  rest-Gives f (err e) w' p pf = tt

  pub Gives-bind :
      (m : Exec A) (f : A → Exec B)
      → Gives P m
      → ((a : A) → P a → Gives Q (f a))
      → Gives Q (m >>= f)
  unfolding ◌>>=◌
  Gives-bind m f pm pf = record { holds = λ w. rest-Gives f (m w).0 (m w).1 (pm.holds w) pf }

-- A call of which nothing is known.
pub Gives-any : {A : Type 0} (m : Exec A) → Gives (λ _. Unit {0}) m
Gives-any {A} m = record { holds = λ w. go (m w).0 }
  where
    go : (r : Result A) → OrError (λ _. Unit {0}) r
    go (ok a) = tt
    go (err e) = tt

-- A first part whose result says nothing about the last one.
pub Gives-then :
    {A B : Type 0} (Q : B → Type 0) (m : Exec A) (f : A → Exec B)
    → ((a : A) → Gives Q (f a))
    → Gives Q (m >>= f)
Gives-then Q m f pf = Gives-bind (λ _. Unit {0}) Q m f (Gives-any m) (λ a _. pf a)

pub gives_inv :
    {A : Type 0} (P : A → Type 0) (m : Exec A) (w w' : World) (a : A)
    → Gives P m
    → m w ≡ (ok a, w')
    → P a
gives_inv P m w w' a p h = rw h at (p.holds w)

-- What the second part leaves alone may depend on what the first one returns.
module _ {X A B : Type 0} (view : World → X) (P : A → Type 0) where
  rest-Leaves :
      (f : A → Exec B) (r : Result A) (w' : World)
      → OrError P r
      → ((a : A) → P a → Leaves view (f a))
      → let after : Result B × World = elim r [ ok a ↦ f a w' | err e ↦ (err e, w') ] in
        view after.1 ≡ view w'
  rest-Leaves f (ok a) w' p pf = (pf a p).same w'
  rest-Leaves f (err e) w' p pf = refl

  pub Leaves-given :
      (m : Exec A) (f : A → Exec B)
      → Leaves view m
      → Gives P m
      → ((a : A) → P a → Leaves view (f a))
      → Leaves view (m >>= f)
  unfolding ◌>>=◌
  Leaves-given m f pm g pf = record {
    same = λ w. rest-Leaves f (m w).0 (m w).1 (g.holds w) pf ∙ pm.same w;
  }
