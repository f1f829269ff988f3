-- ===== src/Schema/Migration.antt =====
-- The migration alembic/versions/20260908_0001_initial_schema.py, as the statements it has the
-- database run. The database is a parameter.
pub mod RoundTrip
use crypto_auto_trader.Base.{◌≡◌, ℕ, Bool, true, false, Option, none, some, List, [], ◌∷◌}
use crypto_auto_trader.Text.{Text, text, text_eq}
use crypto_auto_trader.Schema.{ColumnType, Column, ForeignKey, Table, Index}

pub data Statement : Type 0 where
  create_table : Table → Statement
  create_index : Index → Statement
  drop_index : Text → Statement
  drop_table : Text → Statement

-- The database a migration runs against: `run` is what it does with a statement, `none` its error.
-- Dropping what has just been created gives back the catalogue there was, which is what the
-- documentation of DROP TABLE and DROP INDEX says of an object nothing depends on.
pub record Database : Type 1 where
  pub Catalogue : Type 0
  pub run : Statement → Catalogue → Option Catalogue
  pub drop_table :
      (t : Table) (c c' : Catalogue)
      → run (Statement.create_table t) c ≡ some c'
      → run (Statement.drop_table t.name) c' ≡ some c
  pub drop_index :
      (i : Index) (c c' : Catalogue)
      → run (Statement.create_index i) c ≡ some c'
      → run (Statement.drop_index i.name) c' ≡ some c

abbrev required : Text → ColumnType → Column
required name type = record { name = name; type = type; nullable = false; server_default = false }

abbrev nullable : Text → ColumnType → Column
nullable name type = record { name = name; type = type; nullable = true; server_default = false }

abbrev given : Text → ColumnType → Column
given name type = record { name = name; type = type; nullable = false; server_default = true }

abbrev index : Text → List Text → Bool → Statement
index name columns unique =
    Statement.create_index
      (record { name = name; table = text "trades"; columns = columns; unique = unique })

-- `op.create_table("users", ...)`
abbrev pub users_table : Table
users_table = record {
  name = text "users";
  columns =
      required (text "id") ColumnType.integer
      ∷ required (text "email") (ColumnType.varchar 320)
      ∷ required (text "password_hash") (ColumnType.varchar 128)
      ∷ given (text "is_active") ColumnType.boolean
      ∷ given (text "created_at") ColumnType.timestamp
      ∷ given (text "updated_at") ColumnType.timestamp
      ∷ [];
  primary_key = text "id";
  foreign_keys = [];
}

-- `op.create_table("trades", ...)`
abbrev pub trades_table : Table
trades_table = record {
  name = text "trades";
  columns =
      required (text "id") ColumnType.integer
      ∷ required (text "user_id") ColumnType.integer
      ∷ required (text "signal_id") (ColumnType.varchar 64)
      ∷ required (text "client_order_id") (ColumnType.varchar 36)
      ∷ required (text "symbol") (ColumnType.varchar 20)
      ∷ required (text "side") (ColumnType.enumeration (text "BUY" ∷ text "SELL" ∷ []) 8)
      ∷ given (text "order_type") (ColumnType.varchar 20)
      ∷ required (text "quantity") (ColumnType.numeric 28 12)
      ∷ required (text "status") (
          ColumnType.enumeration
            (text "PENDING"
              ∷ text "UNKNOWN"
              ∷ text "NEW"
              ∷ text "PARTIALLY_FILLED"
              ∷ text "FILLED"
              ∷ text "CANCELLED"
              ∷ text "REJECTED"
              ∷ text "EXPIRED"
              ∷ text "FAILED"
              ∷ [])
            20)
      ∷ nullable (text "binance_order_id") ColumnType.big_integer
      ∷ nullable (text "binance_status") (ColumnType.varchar 32)
      ∷ nullable (text "executed_quantity") (ColumnType.numeric 28 12)
      ∷ nullable (text "cumulative_quote_quantity") (ColumnType.numeric 28 12)
      ∷ nullable (text "error_code") (ColumnType.varchar 64)
      ∷ nullable (text "error_message") ColumnType.unbounded
      ∷ nullable (text "submitted_at") ColumnType.timestamp
      ∷ nullable (text "reconciled_at") ColumnType.timestamp
      ∷ given (text "created_at") ColumnType.timestamp
      ∷ given (text "updated_at") ColumnType.timestamp
      ∷ [];
  primary_key = text "id";
  foreign_keys = record { column = text "user_id"; target = text "users.id"; cascade = true } ∷ [];
}

-- `upgrade`
unfoldable pub upgrade : List Statement
upgrade =
    Statement.create_table users_table
    ∷ Statement.create_index (record {
      name = text "ix_users_email";
      table = text "users";
      columns = text "email" ∷ [];
      unique = true;
    })
    ∷ Statement.create_table trades_table
    ∷ index (text "ix_trades_signal_id") (text "signal_id" ∷ []) true
    ∷ index (text "ix_trades_client_order_id") (text "client_order_id" ∷ []) true
    ∷ index (text "ix_trades_user_id") (text "user_id" ∷ []) false
    ∷ index (text "ix_trades_status") (text "status" ∷ []) false
    ∷ index (text "ix_trades_binance_order_id") (text "binance_order_id" ∷ []) false
    ∷ index (text "ix_trades_created_at") (text "created_at" ∷ []) false
    ∷ index (text "ix_trades_user_id_created_at") (text "user_id" ∷ text "created_at" ∷ []) false
    ∷ index (text "ix_trades_status_created_at") (text "status" ∷ text "created_at" ∷ []) false
    ∷ []

-- `downgrade`
unfoldable pub downgrade : List Statement
downgrade =
    Statement.drop_index (text "ix_trades_status_created_at")
    ∷ Statement.drop_index (text "ix_trades_user_id_created_at")
    ∷ Statement.drop_index (text "ix_trades_created_at")
    ∷ Statement.drop_index (text "ix_trades_binance_order_id")
    ∷ Statement.drop_index (text "ix_trades_status")
    ∷ Statement.drop_index (text "ix_trades_user_id")
    ∷ Statement.drop_index (text "ix_trades_client_order_id")
    ∷ Statement.drop_index (text "ix_trades_signal_id")
    ∷ Statement.drop_table (text "trades")
    ∷ Statement.drop_index (text "ix_users_email")
    ∷ Statement.drop_table (text "users")
    ∷ []

-- The statements of a migration, in a transaction: an error ends them all.
unfoldable pub migrate : (d : Database) → List Statement → d.Catalogue → Option d.Catalogue
migrate d [] c = some c
migrate d (s ∷ ss) c = elim (d.run s c) [ none ↦ none | some c' ↦ migrate d ss c' ]
