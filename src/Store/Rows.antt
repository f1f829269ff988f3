-- ===== src/Store/Rows.antt =====
-- One row in the middle of a table: counted, changed and found by what no other row has.
use crypto_auto_trader.Base.{
  ◌≡◌, refl, Bool, true, false, some, List, [], ◌∷◌, ◌++◌, arith, any, select, ◌&&◌,
}
use crypto_auto_trader.Store.{find, count_where, update_where}

module _ {A : Type 0} (p : A → Bool) where
  count_where-none : (xs : List A) → any p xs ≡ false → count_where p xs ≡ 0
  count_where-none [] h = refl
  count_where-none (x ∷ xs) h = ground (arith, count_where-none xs)

  pub count_where-middle :
      (before after : List A) (x : A)
      → any p before ≡ false
      → any p after ≡ false
      → p x ≡ true
      → count_where p (before ++ x ∷ after) ≡ 1
  count_where-middle [] after x h k e = ground (arith, count_where-none after)
  count_where-middle (y ∷ before) after x h k e = ground (arith, count_where-middle before after x)

  update_where-none : (f : A → A) (xs : List A) → any p xs ≡ false → update_where p f xs ≡ xs
  update_where-none f [] h = refl
  update_where-none f (x ∷ xs) h = ground (arith, update_where-none f xs)

  pub update_where-middle :
      (f : A → A) (before after : List A) (x : A)
      → any p before ≡ false
      → any p after ≡ false
      → p x ≡ true
      → update_where p f (before ++ x ∷ after) ≡ before ++ f x ∷ after
  update_where-middle f [] after x h k e = ground (arith, update_where-none f after)
  update_where-middle f (y ∷ before) after x h k e =
      ground (arith, update_where-middle f before after x)

  pub find-middle :
      (before after : List A) (x : A)
      → any p before ≡ false
      → p x ≡ true
      → find p (before ++ x ∷ after) ≡ some x
  find-middle [] after x h e = ground (arith, e)
  find-middle (y ∷ before) after x h e = ground (arith, find-middle before after x)

module _ {A : Type 0} (p q : A → Bool) where
  -- One condition after the other.
  pub select-and : (xs : List A) → select (λ x. p x && q x) xs ≡ select q (select p xs)
  select-and [] = refl
  select-and (x ∷ xs) = ground (arith, select-and xs)

  pub find-select : (xs : List A) → find (λ x. q x && p x) xs ≡ find q (select p xs)
  find-select [] = refl
  find-select (x ∷ xs) = ground (arith, find-select xs)
