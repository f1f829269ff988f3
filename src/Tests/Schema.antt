-- ===== src/Tests/Schema.antt =====
-- A database that keeps the names of what it holds, and a row for its table.
use crypto_auto_trader.Base.{
  ◌≡◌, refl, Bool, false, not, Option, none, some, List, [], ◌∷◌, arith, if◌then◌else◌, any, select,
}
use crypto_auto_trader.Text.{Text, text, text_eq, text_eq_refl}
use crypto_auto_trader.Schema.Migration.{Statement, Database, migrate, upgrade, downgrade}
use crypto_auto_trader.Schema.Migration.RoundTrip.{downgrade_undoes_upgrade}
use crypto_auto_trader.Schema.Fits.{Fits}

abbrev create : Text → List Text → Option (List Text)
create n names = if any (text_eq n) names then none else some (n ∷ names)

abbrev drop : Text → List Text → Option (List Text)
drop n names = if any (text_eq n) names then some (select (λ m. not (text_eq n m)) names) else none

abbrev run : Statement → List Text → Option (List Text)
run (Statement.create_table t) names = create t.name names
run (Statement.create_index i) names = create i.name names
run (Statement.drop_index n) names = drop n names
run (Statement.drop_table n) names = drop n names

select-not {ℓ} :
    {A : Type ℓ} (p : A → Bool) (xs : List A) → any p xs ≡ false → select (λ x. not (p x)) xs ≡ xs
select-not p [] h = refl
select-not p (x ∷ xs) h = ground (arith, select-not p xs)

drop-create :
    (n : Text) (names names' : List Text)
    → create n names ≡ some names'
    → drop n names' ≡ some names
drop-create n names names' h = ground (arith, text_eq_refl n, select-not (text_eq n) names)

abbrev database : Database
database = record {
  Catalogue = List Text;
  run = run;
  drop_table = λ t c c' h. drop-create t.name c c' h;
  drop_index = λ i c c' h. drop-create i.name c c' h;
}

abbrev upgraded : List Text
upgraded =
    text "ix_trades_status_created_at"
    ∷ text "ix_trades_user_id_created_at"
    ∷ text "ix_trades_created_at"
    ∷ text "ix_trades_binance_order_id"
    ∷ text "ix_trades_status"
    ∷ text "ix_trades_user_id"
    ∷ text "ix_trades_client_order_id"
    ∷ text "ix_trades_signal_id"
    ∷ text "trades"
    ∷ text "ix_users_email"
    ∷ text "users"
    ∷ text "alembic_version"
    ∷ []

upgrades : migrate database upgrade (text "alembic_version" ∷ []) ≡ some upgraded
unfolding migrate upgrade text_eq
upgrades = refl

downgrade_undoes_upgrade_example :
    migrate database downgrade upgraded ≡ some (text "alembic_version" ∷ [])
downgrade_undoes_upgrade_example =
    downgrade_undoes_upgrade database (text "alembic_version" ∷ []) upgraded upgrades
