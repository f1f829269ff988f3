-- ===== src/Schema/Agreement.antt =====
-- The tables of the migration beside the tables of the models.
use crypto_auto_trader.Base.{◌≡◌, refl, List, [], ◌∷◌}
use mathlib.Core.List.{Perm}
use mathlib.Core.List.Perm
use crypto_auto_trader.Schema.{
  Table, Index, user_columns, trade_columns, trade_table_args, metadata_tables, metadata_indexes,
}
use crypto_auto_trader.Schema.Migration.{Statement, upgrade}

-- What a migration creates, in its order.
abbrev created_tables : List Statement → List Table
created_tables [] = []
created_tables (Statement.create_table t ∷ ss) = t ∷ created_tables ss
created_tables (_ ∷ ss) = created_tables ss

abbrev created_indexes : List Statement → List Index
created_indexes [] = []
created_indexes (Statement.create_index i ∷ ss) = i ∷ created_indexes ss
created_indexes (_ ∷ ss) = created_indexes ss

-- `upgrade` creates the tables of the models' metadata, column by column and in their order, with
-- their keys, and the indexes it creates are those of the metadata, each once, in another order.
upgrade_creates_metadata :
    (created_tables upgrade ≡ metadata_tables) × Perm (created_indexes upgrade) metadata_indexes
unfolding upgrade metadata_tables metadata_indexes user_columns trade_columns trade_table_args
upgrade_creates_metadata =
    (refl, Perm.cons _ (Perm.trans (Perm.cons _ (Perm.swap _ _ _)) (Perm.swap _ _ _)))
