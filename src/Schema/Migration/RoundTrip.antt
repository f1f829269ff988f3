-- ===== src/Schema/Migration/RoundTrip.antt =====
-- Statements undone in the reverse order, for `upgrade` and `downgrade`.
use crypto_auto_trader.Base.{
  ◌≡◌, refl, ap, ◌∙◌, Bool, true, false, ◌&&◌, Option, none, some, List, [], ◌∷◌, ◌++◌,
}
use crypto_auto_trader.Schema.Migration.{Statement, Database, migrate, upgrade, downgrade}

abbrev undo : Statement → Statement
undo (Statement.create_table t) = Statement.drop_table t.name
undo (Statement.create_index i) = Statement.drop_index i.name
undo s = s

abbrev creates : Statement → Bool
creates (Statement.create_table t) = true
creates (Statement.create_index i) = true
creates s = false

abbrev undo_all : List Statement → List Statement
undo_all [] = []
undo_all (s ∷ ss) = undo_all ss ++ undo s ∷ []

abbrev all_create : List Statement → Bool
all_create [] = true
all_create (s ∷ ss) = creates s && all_create ss

both : (a b : Bool) → (a && b) ≡ true → (a ≡ true) × (b ≡ true)
both true b h = (refl, h)
both false b h = cc

module _ (d : Database) where
  migrate_step :
      (s : Statement) (ss : List Statement) (c c' : d.Catalogue)
      → d.run s c ≡ some c'
      → migrate d (s ∷ ss) c ≡ migrate d ss c'
  unfolding migrate
  migrate_step s ss c c' h = ap (λ o. elim o [ none ↦ none | some c1 ↦ migrate d ss c1 ]) h

  migrate_inv :
      (s : Statement) (ss : List Statement) (c c' : d.Catalogue)
      → migrate d (s ∷ ss) c ≡ some c'
      → (c1 : d.Catalogue) × (d.run s c ≡ some c1) × (migrate d ss c1 ≡ some c')
  unfolding migrate
  migrate_inv s ss c c' h = go (d.run s c) refl h
    where
      go :
          (o : Option d.Catalogue)
          → d.run s c ≡ o
          → elim o [ none ↦ none | some c1 ↦ migrate d ss c1 ] ≡ some c'
          → (c1 : d.Catalogue) × (d.run s c ≡ some c1) × (migrate d ss c1 ≡ some c')
      go none e k = cc
      go (some c1) e k = (c1, e, k)

  migrate-append :
      (ss rs : List Statement) (c c' : d.Catalogue)
      → migrate d ss c ≡ some c'
      → migrate d (ss ++ rs) c ≡ migrate d rs c'
  unfolding migrate
  migrate-append [] rs c c' h = cc
  migrate-append (s ∷ ss) rs c c' h =
      let (c1, e, k) = migrate_inv s ss c c' h in
      migrate_step s (ss ++ rs) c c1 e ∙ migrate-append ss rs c1 c' k

  run-undo :
      (s : Statement) (c c' : d.Catalogue)
      → creates s ≡ true
      → d.run s c ≡ some c'
      → d.run (undo s) c' ≡ some c
  run-undo (Statement.create_table t) c c' k h = d.drop_table t c c' h
  run-undo (Statement.create_index i) c c' k h = d.drop_index i c c' h
  run-undo (Statement.drop_index n) c c' k h = cc
  run-undo (Statement.drop_table n) c c' k h = cc

  migrate-undo_all :
      (ss : List Statement) (c c' : d.Catalogue)
      → all_create ss ≡ true
      → migrate d ss c ≡ some c'
      → migrate d (undo_all ss) c' ≡ some c
  unfolding migrate
  migrate-undo_all [] c c' k h = cc
  migrate-undo_all (s ∷ ss) c c' k h =
      let (c1, e, m) = migrate_inv s ss c c' h in
      let (k0, k1) = both (creates s) (all_create ss) k in
      migrate-append (undo_all ss) (undo s ∷ []) c' c1 (migrate-undo_all ss c1 c' k1 m)
      ∙ migrate_step (undo s) [] c1 c (run-undo s c c1 k0 e)

-- In every database where dropping what was just created gives back the catalogue there was: where
-- `upgrade` succeeds, `downgrade` after it succeeds, and restores the catalogue `upgrade` began with.
pub downgrade_undoes_upgrade :
    (d : Database) (c c' : d.Catalogue)
    → migrate d upgrade c ≡ some c'
    → migrate d downgrade c' ≡ some c
unfolding upgrade downgrade
downgrade_undoes_upgrade d c c' h = migrate-undo_all d upgrade c c' refl h
