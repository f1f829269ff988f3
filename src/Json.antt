-- ===== src/Json.antt =====
-- What `response.json()` returns, and the operations of the program on it. A float is known by the
-- integer that it equals, if there is one, and by its `str()`.
use crypto_auto_trader.Base.{
  Bool, true, false, not, ◌||◌, Option, some, List, [], if◌then◌else◌, any,
}
use crypto_auto_trader.Base.Int.{ℤ, pos, eqb_ℤ}
use crypto_auto_trader.Text.{Text, text_eq}

mutual
  pub data Json : Type 0 where
    null : Json
    bool : Bool → Json
    int : ℤ → Json
    real : Option ℤ → Text → Json
    str : Text → Json
    arr : Items → Json
    obj : Fields → Json

  pub data Items : Type 0 where
    nil : Items
    cons : Json → Items → Items

  pub data Fields : Type 0 where
    end : Fields
    field : Text → Json → Fields → Fields

-- `d.get(k)`: null when the key is missing
abbrev pub get_field : Text → Fields → Json
get_field k Fields.end = Json.null
get_field k (Fields.field j v rest) = if text_eq k j then v else get_field k rest

-- `k in d`
abbrev pub has_field : Text → Fields → Bool
has_field k Fields.end = false
has_field k (Fields.field j v rest) = text_eq k j || has_field k rest

-- `d.get(k, default)`
abbrev pub get_field_or : Text → Json → Fields → Json
get_field_or k default fields = if has_field k fields then get_field k fields else default

-- `x == n` for an integer n; a Boolean counts as 0 or 1.
abbrev pub equals_int : Json → ℤ → Bool
equals_int (Json.bool b) n = eqb_ℤ (if b then pos 1 else pos 0) n
equals_int (Json.int m) n = eqb_ℤ m n
equals_int (Json.real (some m) _) n = eqb_ℤ m n
equals_int _ n = false

-- `x in (n, ...)`
abbrev pub int_in : Json → List ℤ → Bool
int_in x = any (equals_int x)

abbrev pub is_null : Json → Bool
is_null Json.null = true
is_null _ = false

-- `bool(x)`
abbrev pub truthy : Json → Bool
truthy Json.null = false
truthy (Json.bool b) = b
truthy (Json.int n) = not (eqb_ℤ n (pos 0))
truthy (Json.real (some n) _) = not (eqb_ℤ n (pos 0))
truthy (Json.str []) = false
truthy (Json.arr Items.nil) = false
truthy (Json.obj Fields.end) = false
truthy _ = true
