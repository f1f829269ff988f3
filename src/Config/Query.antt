-- ===== src/Config/Query.antt =====
-- The query of a database URL after its normalisation.
use crypto_auto_trader.Base.{◌≡◌, Bool, true, not, ◌&&◌, List, [], ◌∷◌, All, Bool-cases, inl, inr}
use crypto_auto_trader.Text.{Text, text, text_eq}
use crypto_auto_trader.Config.{
  normalise_query, libpq_params_asyncpg_ignores, libpq_ssl_param_renames,
}

-- A parameter that asyncpg takes: none of those that only libpq knows.
abbrev pub is_accepted : (Text → Text) → Text × Text → Bool
is_accepted lower (key, value) =
    not (text_eq (lower key) (text "sslmode")) && not (text_eq (lower key) (text "channel_binding"))

-- No parameter that only libpq knows is left in a normalised query, in whatever case it was written.
-- `str.lower` leaves "ssl" as it is.
normalise_query-All :
    (lower : Text → Text) (query : List (Text × Text))
    → lower (text "ssl") ≡ text "ssl"
    → All (λ entry. is_accepted lower entry ≡ true) (normalise_query lower query)
unfolding normalise_query libpq_params_asyncpg_ignores libpq_ssl_param_renames text_eq
normalise_query-All lower [] ssl = tt
normalise_query-All lower ((key, value) ∷ rest) ssl =
    let kept = normalise_query-All lower rest ssl in
    elim (Bool-cases (text_eq (lower key) (text "channel_binding"))) [
      | inl ignored ↦ rw ignored kept
      | inr taken ↦ elim (Bool-cases (text_eq (lower key) (text "sslmode"))) [
        | inl renamed ↦ rw (taken, renamed) (rw ssl, kept)
        | inr plain ↦ rw (taken, plain) (rw (taken, plain), kept)
      ]
    ]
