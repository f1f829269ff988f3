-- ===== src/Text.antt =====
-- Python's `str` as the list of its code points, with the methods that the program calls on it.
use Prim.Native.Char.{code}
use Prim.Native.String.{String}
use crypto_auto_trader.Base.{
  ℕ, ◌-◌, ◌≡◌, refl, ◌↔◌, Bool, true, false, ◌&&◌, ◌||◌, List, [], ◌∷◌, ◌++◌, arith, ltb, leb, ◌==◌,
  if◌then◌else◌, any, Option, none, some,
}

abbrev pub Text : Type 0
Text = List ℕ

-- A literal.
abbrev pub text : String → Text
text String.[] = []
text (String.◌∷◌ c s) = code c ∷ text s

-- `a == b` on `str`
unfoldable pub text_eq : Text → Text → Bool
text_eq [] [] = true
text_eq (a ∷ as') (b ∷ bs) = (a == b) && text_eq as' bs
text_eq _ _ = false

pub text_eq_iff : (a b : Text) → (text_eq a b ≡ true) ↔ (a ≡ b)
unfolding text_eq
text_eq_iff [] [] = ground arith
text_eq_iff [] (x ∷ b) = ground arith
text_eq_iff (x ∷ a) [] = ground arith
text_eq_iff (x ∷ a) (y ∷ b) = ground (arith, text_eq_iff a b)

pub text_eq_refl : (a : Text) → text_eq a a ≡ true
text_eq_refl a = (text_eq_iff a a).1 refl

pub text_eq_sym : (a b : Text) → text_eq a b ≡ text_eq b a
text_eq_sym a b = ground (arith, text_eq_iff a b, text_eq_iff b a)

-- `s.rstrip(c)` for one character
abbrev rstrip_cons : ℕ → ℕ → Text → Text
rstrip_cons c x [] = if x == c then [] else x ∷ []
rstrip_cons c x (y ∷ ys) = x ∷ y ∷ ys

unfoldable pub rstrip : ℕ → Text → Text
rstrip c [] = []
rstrip c (x ∷ xs) = rstrip_cons c x (rstrip c xs)

-- The code points for which `str.isspace` holds.
abbrev pub is_space : ℕ → Bool
is_space c =
    (leb 9 c && leb c 13)
    || (leb 28 c && leb c 32)
    || (c == 0x85)
    || (c == 0xa0)
    || (c == 0x1680)
    || (leb 0x2000 c && leb c 0x200a)
    || (c == 0x2028)
    || (c == 0x2029)
    || (c == 0x202f)
    || (c == 0x205f)
    || (c == 0x3000)

abbrev pub lstrip_space : Text → Text
lstrip_space [] = []
lstrip_space (x ∷ xs) = let rest = lstrip_space xs in if is_space x then rest else x ∷ xs

abbrev rstrip_space_cons : ℕ → Text → Text
rstrip_space_cons x [] = if is_space x then [] else x ∷ []
rstrip_space_cons x (y ∷ ys) = x ∷ y ∷ ys

abbrev pub rstrip_space : Text → Text
rstrip_space [] = []
rstrip_space (x ∷ xs) = rstrip_space_cons x (rstrip_space xs)

-- `s.strip()`
unfoldable pub strip : Text → Text
strip t = rstrip_space (lstrip_space t)

-- `s.startswith(p)`
unfoldable pub starts_with : Text → Text → Bool
starts_with [] s = true
starts_with (x ∷ xs) [] = false
starts_with (x ∷ xs) (y ∷ ys) = (x == y) && starts_with xs ys

-- `s in texts`
abbrev pub text_in : Text → List Text → Bool
text_in s = any (text_eq s)

-- `d.get(k)` for a dict literal, written as its items.
abbrev pub get {ℓ} : {V : Type ℓ} → Text → List (Text × V) → Option V
get k [] = none
get k ((j, v) ∷ d) = if text_eq k j then some v else get k d

abbrev split_cons : Bool → ℕ → List Text → List Text
split_cons true x parts = [] ∷ parts
split_cons false x [] = (x ∷ []) ∷ []
split_cons false x (part ∷ parts) = (x ∷ part) ∷ parts

-- `s.split(c)` for one character
unfoldable pub split : ℕ → Text → List Text
split c [] = [] ∷ []
split c (x ∷ xs) = split_cons (x == c) x (split c xs)

-- `s.upper()`, given the upper case of the characters beyond ASCII
abbrev pub upper_ascii : (ℕ → Text) → ℕ → Text
upper_ascii table c =
    if leb b'a' c && leb c b'z' then (c - 32) ∷ [] else if ltb c 128 then c ∷ [] else table c

unfoldable pub upper : (ℕ → Text) → Text → Text
upper table [] = []
upper table (c ∷ t) = upper_ascii table c ++ upper table t
