-- ===== src/World/Leaves.antt =====
-- Calls that leave a part of the state alone: rules for each way to build a call.
use crypto_auto_trader.Base.{◌≡◌, refl, ◌∙◌, Bool, true, false, if◌then◌else◌}
use crypto_auto_trader.Errors.{Exc, Result, ok, err}
use crypto_auto_trader.World.{World, Exec, pure, raise, lift, gets, attempt, ◌>>=◌}

pub record Leaves {X A : Type 0} (view : World → X) (m : Exec A) : Type 0 where
  pub same : (w : World) → view (m w).1 ≡ view w

module _ {X A : Type 0} (view : World → X) where
  pub Leaves-pure : (a : A) → Leaves view (pure a)
  unfolding pure
  Leaves-pure a = record { same = λ w. refl }

  pub Leaves-raise : (e : Exc) → Leaves view (raise {A = A} e)
  unfolding raise
  Leaves-raise e = record { same = λ w. refl }

  pub Leaves-lift : (r : Result A) → Leaves view (lift r)
  unfolding lift
  Leaves-lift r = record { same = λ w. refl }

  pub Leaves-gets : (f : World → A) → Leaves view (gets f)
  unfolding gets
  Leaves-gets f = record { same = λ w. refl }

  pub Leaves-attempt : (m : Exec A) → Leaves view m → Leaves view (attempt m)
  unfolding attempt
  Leaves-attempt m p = record { same = p.same }

  pub Leaves-if :
      (b : Bool) (m k : Exec A) → Leaves view m → Leaves view k → Leaves view (if b then m else k)
  Leaves-if true m k pm pk = pm
  Leaves-if false m k pm pk = pk

module _ {X A B : Type 0} (view : World → X) where
  rest :
      (f : A → Exec B) (r : Result A) (w' : World)
      → ((a : A) → Leaves view (f a))
      → let after : Result B × World = elim r [ ok a ↦ f a w' | err e ↦ (err e, w') ] in
        view after.1 ≡ view w'
  rest f (ok a) w' pf = (pf a).same w'
  rest f (err e) w' pf = refl

  pub Leaves-bind :
      (m : Exec A) (f : A → Exec B)
      → Leaves view m
      → ((a : A) → Leaves view (f a))
      → Leaves view (m >>= f)
  unfolding ◌>>=◌
  Leaves-bind m f pm pf = record { same = λ w. rest f (m w).0 (m w).1 pf ∙ pm.same w }

pub ruleset leaves_rules =
    (Leaves-pure, Leaves-raise, Leaves-lift, Leaves-gets, Leaves-attempt, Leaves-if, Leaves-bind)
