-- ===== src/Executor/System/Refines.antt =====
-- A call whose effect is a sequence of steps: rules for each way to build one.
use crypto_auto_trader.Base.{
  ℕ, refl, Bool, true, false, Option, none, some, List, [], ◌∷◌, ◌++◌, if◌then◌else◌, Bool-cases,
  ltb, length, inl, inr,
}
use crypto_auto_trader.Text.{Text}
use crypto_auto_trader.Models.{Trade, User}
use crypto_auto_trader.Errors.{Exc, Result, ok, err}
use crypto_auto_trader.Store.{insert_user, update_trade}
use crypto_auto_trader.Host.{Host}
use crypto_auto_trader.World.{
  World, Exec, pure, raise, lift, gets, attempt, modify, commit, commit_insert, ◌>>=◌,
}
use crypto_auto_trader.Payload.{Payload}
use crypto_auto_trader.Outcomes.Keeps.{Outcome}
use crypto_auto_trader.Binance.{BinanceOrderResult}
use crypto_auto_trader.BinanceClient.{Client, get_order}
use crypto_auto_trader.Trading.{create_pending_trade, claim_for_submission, place_order, submit}
use crypto_auto_trader.Executor.System.{System, Step, Reach, claimed_job}

abbrev pub at_state : World → List Trade → System
at_state w jobs = record { world = w; jobs = jobs }

module _ (host : Host) (client : Client) where
  pub Reach-trans :
      {s t u : System} → Reach host client s t → Reach host client t u → Reach host client s u
  Reach-trans r Reach.here = r
  Reach-trans r (Reach.next q st) = Reach.next (Reach-trans r q) st

  pub Reach-one : {s t : System} → Step host client s t → Reach host client s t
  Reach-one st = Reach.next Reach.here st

  -- Whoever else holds a trade holds it still.
  pub record Refines {A : Type 0} (m : Exec A) : Type 0 where
    pub steps :
        (w : World) (jobs : List Trade)
        → Reach host client (at_state w jobs) (at_state (m w).1 jobs)

  -- A call that does away with the trade that its task has claimed.
  pub record Spends {A : Type 0} (t : Trade) (m : Exec A) : Type 0 where
    pub steps :
        (w : World) (jobs : List Trade)
        → Reach host client (at_state w (t ∷ jobs)) (at_state (m w).1 jobs)

  module _ {A : Type 0} where
    pub Refines-pure : (a : A) → Refines (pure a)
    unfolding pure
    Refines-pure a = record { steps = λ w jobs. Reach.here }

    pub Refines-raise : (e : Exc) → Refines (raise {A = A} e)
    unfolding raise
    Refines-raise e = record { steps = λ w jobs. Reach.here }

    pub Refines-lift : (r : Result A) → Refines (lift r)
    unfolding lift
    Refines-lift r = record { steps = λ w jobs. Reach.here }

    pub Refines-gets : (f : World → A) → Refines (gets f)
    unfolding gets
    Refines-gets f = record { steps = λ w jobs. Reach.here }

    pub Refines-attempt : (m : Exec A) → Refines m → Refines (attempt m)
    unfolding attempt
    Refines-attempt m p = record { steps = p.steps }

    pub Refines-if :
        (b : Bool) (m k : Exec A) → Refines m → Refines k → Refines (if b then m else k)
    Refines-if true m k pm pk = pm
    Refines-if false m k pm pk = pk

  module _ {A B : Type 0} where
    rest-Refines :
        (s : System) (jobs : List Trade) (f : A → Exec B) (r : Result A) (w' : World)
        → ((a : A) → Refines (f a))
        → Reach host client s (at_state w' jobs)
        → let after : Result B × World = elim r [ ok a ↦ f a w' | err e ↦ (err e, w') ] in
          Reach host client s (at_state after.1 jobs)
    rest-Refines s jobs f (ok a) w' pf h = Reach-trans h ((pf a).steps w' jobs)
    rest-Refines s jobs f (err e) w' pf h = h

    pub Refines-bind :
        (m : Exec A) (f : A → Exec B) → Refines m → ((a : A) → Refines (f a)) → Refines (m >>= f)
    unfolding ◌>>=◌
    Refines-bind m f pm pf = record {
      steps = λ w jobs. rest-Refines (at_state w jobs) jobs f (m w).0 (m w).1 pf (pm.steps w jobs);
    }

    pub Spends-then :
        (t : Trade) (m : Exec A) (f : A → Exec B)
        → Spends t m
        → ((a : A) → Refines (f a))
        → Spends t (m >>= f)
    unfolding ◌>>=◌
    Spends-then t m f pm pf = record {
      steps = λ w jobs.
          rest-Refines (at_state w (t ∷ jobs)) jobs f (m w).0 (m w).1 pf (pm.steps w jobs);
    }

  rest-claimed :
      {A : Type 0} (s : System) (jobs : List Trade) (f : Option Trade → Exec A)
      (r : Result (Option Trade)) (w' : World)
      → Refines (f none)
      → ((t : Trade) → Spends t (f (some t)))
      → Reach host client s (at_state w' (claimed_job r jobs))
      → let after : Result A × World = elim r [ ok a ↦ f a w' | err e ↦ (err e, w') ] in
        Reach host client s (at_state after.1 jobs)
  rest-claimed s jobs f (ok none) w' lost won h = Reach-trans h (lost.steps w' jobs)
  rest-claimed s jobs f (ok (some t)) w' lost won h = Reach-trans h ((won t).steps w' jobs)
  rest-claimed s jobs f (err e) w' lost won h = h

  -- A claim, and what is done with the trade that it hands over.
  pub Refines-claimed :
      {A : Type 0} (k : ℕ) (f : Option Trade → Exec A)
      → Refines (f none)
      → ((t : Trade) → Spends t (f (some t)))
      → Refines (claim_for_submission host k >>= f)
  unfolding ◌>>=◌
  Refines-claimed k f lost won = record {
    steps = λ w jobs.
        let (r, w') = claim_for_submission host k w in
        rest-claimed (at_state w jobs) jobs f r w' lost won (Reach-one (Step.claim k));
  }

  -- The order of a claimed trade, and what is done with its answer.
  pub Spends-place_order :
      {B : Type 0} (t : Trade) (f : Result BinanceOrderResult → Exec B)
      → ((r : Result BinanceOrderResult) → Refines (f r))
      → Spends t (attempt (place_order host client t) >>= f)
  unfolding ◌>>=◌
  Spends-place_order t f pf = record {
    steps = λ w jobs.
        let (r, w') = place_order host client t w in
        Reach-trans (Reach-one (Step.send_order [] jobs t refl)) ((pf r).steps w' jobs);
  }

  pub Refines-write :
      (k : ℕ) (f : Trade → Trade) → Outcome host f → Refines (commit host (update_trade k f))
  Refines-write k f o = record { steps = λ w jobs. Reach-one (Step.write k f o) }

  pub Refines-query :
      (symbol client_order_id : Text) → Refines (get_order host client symbol client_order_id)
  Refines-query symbol client_order_id = record {
    steps = λ w jobs. Reach-one (Step.query symbol client_order_id);
  }

  pub Refines-signal :
      (payload : Payload) (owner_id : ℕ) → Refines (create_pending_trade host payload owner_id)
  Refines-signal payload owner_id = record {
    steps = λ w jobs. Reach-one (Step.signal payload owner_id);
  }

  pub Refines-register : (u : User) → Refines (commit_insert host (insert_user u))
  Refines-register u = record { steps = λ w jobs. Reach-one (Step.register u) }

  pub Refines-owner : (k : Option ℕ) → Refines (modify (λ w. record w { owner = k }))
  unfolding modify
  Refines-owner k = record {
    steps = λ w jobs. Reach-one (Step.other w.queue w.clock k w.request_id);
  }

  pub Refines-submit : (k : ℕ) → Refines (submit host k)
  unfolding submit
  Refines-submit k = record {
    steps = λ w jobs. elim (Bool-cases (ltb (length w.queue) host.settings.executor_queue_size)) [
      | inl e ↦
          rw e (
            Reach-one (Step.other (w.queue ++ (k, w.request_id) ∷ []) w.clock w.owner w.request_id))
      | inr e ↦ rw e Reach.here
    ];
  }

pub ruleset refines_rules = (
  Refines-pure, Refines-raise, Refines-lift, Refines-gets, Refines-attempt, Refines-if,
  Refines-bind,
)
