-- ===== src/World/Agrees.antt =====
-- Calls that cannot tell two states apart: rules for each way to build a call.
use crypto_auto_trader.Base.{◌≡◌, refl, Bool, true, false, if◌then◌else◌}
use crypto_auto_trader.Errors.{Exc, Result, ok, err}
use crypto_auto_trader.World.{World, Exec, pure, raise, lift, gets, ◌>>=◌}
use crypto_auto_trader.World.Runs.{continue, bind_lem}

-- From related states, the same result and related states.
pub record Agrees (R : World → World → Type 0) {A : Type 0} (m : Exec A) : Type 0 where
  pub same : (w w' : World) → R w w' → (m w).0 ≡ (m w').0
  pub related : (w w' : World) → R w w' → R (m w).1 (m w').1

module _ (R : World → World → Type 0) {A : Type 0} where
  pub Agrees-pure : (a : A) → Agrees R (pure a)
  unfolding pure
  Agrees-pure a = record { same = λ w w' r. refl; related = λ w w' r. r }

  pub Agrees-raise : (e : Exc) → Agrees R (raise {A = A} e)
  unfolding raise
  Agrees-raise e = record { same = λ w w' r. refl; related = λ w w' r. r }

  pub Agrees-lift : (r : Result A) → Agrees R (lift r)
  unfolding lift
  Agrees-lift x = record { same = λ w w' r. refl; related = λ w w' r. r }

  pub Agrees-gets : (f : World → A) → ((w w' : World) → R w w' → f w ≡ f w') → Agrees R (gets f)
  unfolding gets
  Agrees-gets f h = record { same = λ w w' r. rw (h w w' r) refl; related = λ w w' r. r }

  pub Agrees-if :
      (b : Bool) (m k : Exec A) → Agrees R m → Agrees R k → Agrees R (if b then m else k)
  Agrees-if true m k pm pk = pm
  Agrees-if false m k pm pk = pk

module _ (R : World → World → Type 0) {A B : Type 0} where
  same-continue :
      (f : A → Exec B) (r : Result A) (v v' : World)
      → ((a : A) → Agrees R (f a))
      → R v v'
      → ((continue f (r, v)).0 ≡ (continue f (r, v')).0)
        × R (continue f (r, v)).1 (continue f (r, v')).1
  same-continue f (ok a) v v' pf h = ((pf a).same v v' h, (pf a).related v v' h)
  same-continue f (err e) v v' pf h = (refl, h)

  pub Agrees-bind :
      (m : Exec A) (f : A → Exec B) → Agrees R m → ((a : A) → Agrees R (f a)) → Agrees R (m >>= f)
  Agrees-bind m f pm pf = record {
    same = λ w w' r.
        rw (bind_lem m f w, bind_lem m f w', pm.same w w' r)
          (same-continue f (m w').0 (m w).1 (m w').1 pf (pm.related w w' r)).0;
    related = λ w w' r.
        rw (bind_lem m f w, bind_lem m f w', pm.same w w' r)
          (same-continue f (m w').0 (m w).1 (m w').1 pf (pm.related w w' r)).1;
  }

pub ruleset agrees_rules =
    (Agrees-pure, Agrees-raise, Agrees-lift, Agrees-gets, Agrees-if, Agrees-bind)
