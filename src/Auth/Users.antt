-- ===== src/Auth/Users.antt =====
-- What no account of a table has: an address that is free, an id that is not given yet.
use crypto_auto_trader.Base.{ℕ, ◌<◌, ◌≡◌, refl, false, List, [], ◌∷◌, arith, any, All}
use crypto_auto_trader.Base.Int.{pos}
use crypto_auto_trader.Text.{Text, text_eq, text_eq_iff}
use crypto_auto_trader.Models.{User}
use crypto_auto_trader.Auth.{has_email, has_user_id}

pub unnamed :
    (email : Text) (users : List User)
    → any (λ (v : User). text_eq email v.email) users ≡ false
    → any (has_email email) users ≡ false
unnamed email [] h = refl
unnamed email (u ∷ users) h =
    ground (arith, unnamed email users, text_eq_iff email u.email, text_eq_iff u.email email)

pub unnumbered :
    (k : ℕ) (users : List User)
    → All (λ (u : User). u.id < k) users
    → any (has_user_id (pos k)) users ≡ false
unnumbered k [] h = refl
unnumbered k (u ∷ users) h = ground (arith, unnumbered k users h.1, h.0)
