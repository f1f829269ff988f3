-- ===== src/Store/Order.antt =====
-- Pages of a sorted selection: what is on them, how many, and in which order.
use crypto_auto_trader.Base.{
  ℕ, zero, suc, ◌≡◌, refl, Bool, true, false, List, [], ◌∷◌, arith, if◌then◌else◌, length, take,
  drop, All, All-imp,
}
use mathlib.Core.List.{Perm}
use mathlib.Core.List.Perm
use Prim.Native.Nat.{min}
use crypto_auto_trader.Store.{insert_by, order_by}

module _ {A : Type 0} where
  pub length-take : (n : ℕ) (xs : List A) → length (take n xs) ≡ min n (length xs)
  length-take zero xs = omega arith
  length-take (suc n) [] = omega arith
  length-take (suc n) (x ∷ xs) = omega (arith, length-take n xs)

  pub All-take : (P : A → Type 0) (n : ℕ) (xs : List A) → All P xs → All P (take n xs)
  All-take P zero xs h = tt
  All-take P (suc n) [] h = tt
  All-take P (suc n) (x ∷ xs) h = (h.0, All-take P n xs h.1)

  pub All-drop : (P : A → Type 0) (n : ℕ) (xs : List A) → All P xs → All P (drop n xs)
  All-drop P zero xs h = h
  All-drop P (suc n) [] h = tt
  All-drop P (suc n) (x ∷ xs) h = All-drop P n xs h.1

module _ {A : Type 0} (before : A → A → Bool) where
  pub length-insert_by : (x : A) (ys : List A) → length (insert_by before x ys) ≡ suc (length ys)
  length-insert_by x [] = refl
  length-insert_by x (y ∷ ys) = ground (arith, length-insert_by x ys)

  pub length-order_by : (xs : List A) → length (order_by before xs) ≡ length xs
  length-order_by [] = refl
  length-order_by (x ∷ xs) =
      omega (arith, length-insert_by x (order_by before xs), length-order_by xs)

  pub All-insert_by :
      (P : A → Type 0) (x : A) (ys : List A) → P x → All P ys → All P (insert_by before x ys)
  All-insert_by P x [] p h = (p, tt)
  All-insert_by P x (y ∷ ys) p h = place (before y x) (All-insert_by P x ys p h.1)
    where
      place :
          (b : Bool)
          → All P (insert_by before x ys)
          → All P (if b then y ∷ insert_by before x ys else x ∷ y ∷ ys)
      place true rest = (h.0, rest)
      place false rest = (p, h)

  pub All-order_by : (P : A → Type 0) (xs : List A) → All P xs → All P (order_by before xs)
  All-order_by P [] h = tt
  All-order_by P (x ∷ xs) h = All-insert_by P x (order_by before xs) h.0 (All-order_by P xs h.1)

  insert_by-perm : (x : A) (ys : List A) → Perm (insert_by before x ys) (x ∷ ys)
  insert_by-perm x [] = Perm.rfl
  insert_by-perm x (y ∷ ys) = place (before y x) (insert_by-perm x ys)
    where
      place :
          (b : Bool)
          → Perm (insert_by before x ys) (x ∷ ys)
          → Perm (if b then y ∷ insert_by before x ys else x ∷ y ∷ ys) (x ∷ y ∷ ys)
      place true rest = Perm.trans (Perm.cons y rest) (Perm.swap _ _ _)
      place false rest = Perm.rfl

  pub order_by-perm : (xs : List A) → Perm (order_by before xs) xs
  order_by-perm [] = Perm.rfl
  order_by-perm (x ∷ xs) =
      Perm.trans (insert_by-perm x (order_by before xs)) (Perm.cons x (order_by-perm xs))

-- No element comes before one that stands in front of it.
abbrev pub IsOrdered : {A : Type 0} → (A → A → Bool) → List A → Type 0
IsOrdered before [] = Unit
IsOrdered before (x ∷ xs) = All (λ y. before y x ≡ false) xs × IsOrdered before xs

-- A strict weak order: what does not come before, the middle one included, does not come before.
module _ {A : Type 0} (before : A → A → Bool)
    (asym : (a b : A) → before a b ≡ true → before b a ≡ false)
    (trans : (a b c : A) → before a b ≡ false → before b c ≡ false → before a c ≡ false) where
  IsOrdered-insert_by :
      (x : A) (ys : List A) → IsOrdered before ys → IsOrdered before (insert_by before x ys)
  IsOrdered-insert_by x [] h = (tt, tt)
  IsOrdered-insert_by x (y ∷ ys) h = place (before y x) refl (IsOrdered-insert_by x ys h.1)
    where
      place :
          (b : Bool)
          → before y x ≡ b
          → IsOrdered before (insert_by before x ys)
          → IsOrdered before (if b then y ∷ insert_by before x ys else x ∷ y ∷ ys)
      place true e rest =
          (All-insert_by before (λ z. before z y ≡ false) x ys (asym y x e) h.0, rest)
      place false e rest = (
        (
          e,
          All-imp (λ z. before z y ≡ false) (λ z. before z x ≡ false) ys (λ z d. trans z y x d e)
              h.0,
        ),
        h,
      )

  pub IsOrdered-order_by : (xs : List A) → IsOrdered before (order_by before xs)
  IsOrdered-order_by [] = tt
  IsOrdered-order_by (x ∷ xs) = IsOrdered-insert_by x (order_by before xs) (IsOrdered-order_by xs)
