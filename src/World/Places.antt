-- ===== src/World/Places.antt =====
-- How many orders a call places: rules for each way to build a call.
use crypto_auto_trader.Base.{
  ℕ, ◌+◌, ◌≤◌, ◌≡◌, Bool, true, false, List, [], ◌∷◌, ◌++◌, arith, if◌then◌else◌, Bool-cases, inl,
  inr, Option,
}
use crypto_auto_trader.Errors.{Exc, Result, ok, err}
use crypto_auto_trader.Store.{Db}
use crypto_auto_trader.Host.{http_get, http_post, Request, Host}
use crypto_auto_trader.World.{
  World, Exec, pure, raise, lift, gets, attempt, modify, ◌>>=◌, send, commit, commit_insert,
}

-- An order is placed by a POST and by nothing else.
abbrev pub is_post : Request → Bool
is_post r = elim r.method [ http_get ↦ false | http_post ↦ true ]

abbrev pub post_count : List Request → ℕ
post_count [] = 0
post_count (r ∷ rs) = (if is_post r then 1 else 0) + post_count rs

pub post_count-append :
    (rs : List Request) (r : Request)
    → post_count (rs ++ r ∷ []) ≡ post_count rs + (if is_post r then 1 else 0)
post_count-append [] r = omega arith
post_count-append (x ∷ rs) r = omega (arith, post_count-append rs r)

-- A call that places at most `n` orders, whether it returns or raises.
pub record Places {A : Type 0} (n : ℕ) (m : Exec A) : Type 0 where
  pub least : (w : World) → post_count w.requests ≤ post_count (m w).1.requests
  pub most : (w : World) → post_count (m w).1.requests ≤ post_count w.requests + n

module _ {A : Type 0} where
  pub Places-pure : (a : A) → Places 0 (pure a)
  unfolding pure
  Places-pure a = record { least = λ w. omega arith; most = λ w. omega arith }

  pub Places-raise : (e : Exc) → Places 0 (raise {A = A} e)
  unfolding raise
  Places-raise e = record { least = λ w. omega arith; most = λ w. omega arith }

  pub Places-lift : (r : Result A) → Places 0 (lift r)
  unfolding lift
  Places-lift r = record { least = λ w. omega arith; most = λ w. omega arith }

  pub Places-gets : (f : World → A) → Places 0 (gets f)
  unfolding gets
  Places-gets f = record { least = λ w. omega arith; most = λ w. omega arith }

  pub Places-attempt : (n : ℕ) (m : Exec A) → Places n m → Places n (attempt m)
  unfolding attempt
  Places-attempt n m p = record { least = p.least; most = p.most }

  pub Places-weaken : (k n : ℕ) (m : Exec A) → k ≤ n → Places k m → Places n m
  Places-weaken k n m h p = record { least = p.least; most = λ w. omega (arith, p.most w) }

  pub Places-if :
      (n : ℕ) (b : Bool) (m k : Exec A) → Places n m → Places n k → Places n (if b then m else k)
  Places-if n true m k pm pk = pm
  Places-if n false m k pm pk = pk

module _ {A B : Type 0} where
  rest-Places :
      (j n : ℕ) (r : Result A) (f : A → Exec B) (w w' : World)
      → ((a : A) → Places n (f a))
      → post_count w.requests ≤ post_count w'.requests
      → post_count w'.requests ≤ post_count w.requests + j
      → let after : Result B × World = elim r [ ok a ↦ f a w' | err e ↦ (err e, w') ] in
        (post_count w.requests ≤ post_count after.1.requests)
        × (post_count after.1.requests ≤ post_count w.requests + (j + n))
  rest-Places j n (ok a) f w w' pf lo hi =
      (omega (arith, (pf a).least w'), omega (arith, (pf a).most w'))
  rest-Places j n (err e) f w w' pf lo hi = (omega arith, omega arith)

  pub Places-bind :
      (j n : ℕ) (m : Exec A) (f : A → Exec B)
      → Places j m
      → ((a : A) → Places n (f a))
      → Places (j + n) (m >>= f)
  unfolding ◌>>=◌
  Places-bind j n m f pm pf = record {
    least = λ w. (rest-Places j n (m w).0 f w (m w).1 pf (pm.least w) (pm.most w)).0;
    most = λ w. (rest-Places j n (m w).0 f w (m w).1 pf (pm.least w) (pm.most w)).1;
  }

  -- A first part that places nothing.
  pub Places-seq :
      (n : ℕ) (m : Exec A) (f : A → Exec B)
      → Places 0 m
      → ((a : A) → Places n (f a))
      → Places n (m >>= f)
  Places-seq n m f pm pf =
      Places-weaken (0 + n) n (m >>= f) (omega arith) (Places-bind 0 n m f pm pf)

  -- Then parts that place nothing.
  pub Places-then :
      (n : ℕ) (m : Exec A) (f : A → Exec B)
      → Places n m
      → ((a : A) → Places 0 (f a))
      → Places n (m >>= f)
  Places-then n m f pm pf =
      Places-weaken (n + 0) n (m >>= f) (omega arith) (Places-bind n 0 m f pm pf)

pub Places-modify :
    (f : World → World) → ((w : World) → (f w).requests ≡ w.requests) → Places 0 (modify f)
unfolding modify
Places-modify f h = record {
  least = λ w. rw (h w) (omega arith);
  most = λ w. rw (h w) (omega arith);
}

module _ (host : Host) where
  pub Places-commit : (f : Db → Db) → Places 0 (commit host f)
  unfolding commit
  Places-commit f = record {
    least = λ w. elim (Bool-cases (host.commit_fails w.commits)) [
      | inl e ↦ rw e (omega arith)
      | inr e ↦ rw e (omega arith)
    ];
    most = λ w. elim (Bool-cases (host.commit_fails w.commits)) [
      | inl e ↦ rw e (omega arith)
      | inr e ↦ rw e (omega arith)
    ];
  }

  pub requests-commit_insert :
      {A : Type 0} (f : Db → Option (A × Db)) (w : World)
      → (commit_insert host f w).1.requests ≡ w.requests
  unfolding commit_insert
  requests-commit_insert f w = ground arith

  pub Places-commit_insert :
      {A : Type 0} (f : Db → Option (A × Db)) → Places 0 (commit_insert host f)
  Places-commit_insert f = record {
    least = λ w. rw requests-commit_insert (omega arith);
    most = λ w. rw requests-commit_insert (omega arith);
  }

  pub Places-send_get : (r : Request) → is_post r ≡ false → Places 0 (send host r)
  unfolding send
  Places-send_get r h = record {
    least = λ w. rw (post_count-append, h) (omega arith);
    most = λ w. rw (post_count-append, h) (omega arith);
  }

  pub Places-send : (r : Request) → Places 1 (send host r)
  unfolding send
  Places-send r = record {
    least = λ w. rw post_count-append (omega arith);
    most = λ w. rw post_count-append (ground arith);
  }

pub ruleset places_rules = (
  Places-pure, Places-raise, Places-lift, Places-gets, Places-attempt, Places-if, Places-seq,
  Places-commit, Places-commit_insert,
)
