-- ===== src/Schema.antt =====
-- The tables as they are declared twice: by the ORM models of app/db/models.py, and by the migration
-- alembic/versions/20260908_0001_initial_schema.py. A server default is known by its presence.
pub mod Migration
pub mod Agreement
pub mod Fits
use crypto_auto_trader.Base.{
  ℕ, Bool, true, false, ◌&&◌, ◌||◌, Option, none, some, List, [], ◌∷◌, ◌++◌, if◌then◌else◌, map,
}
use crypto_auto_trader.Text.{Text, text}

pub data ColumnType : Type 0 where
  integer big_integer boolean timestamp unbounded : ColumnType
  -- VARCHAR(n), NUMERIC(p, s), and a VARCHAR(n) with a CHECK on its values
  varchar : ℕ → ColumnType
  numeric : ℕ → ℕ → ColumnType
  enumeration : List Text → ℕ → ColumnType

pub record Column : Type 0 where
  pub name : Text
  pub type : ColumnType
  pub nullable : Bool
  pub server_default : Bool

-- `ON DELETE CASCADE` or not
pub record ForeignKey : Type 0 where
  pub column : Text
  pub target : Text
  pub cascade : Bool

pub record Table : Type 0 where
  pub name : Text
  pub columns : List Column
  pub primary_key : Text
  pub foreign_keys : List ForeignKey

pub record Index : Type 0 where
  pub name : Text
  pub table : Text
  pub columns : List Text
  pub unique : Bool

abbrev column : Text → ColumnType → Column
column name type = record { name = name; type = type; nullable = false; server_default = false }

abbrev optional : Text → ColumnType → Column
optional name type = record { name = name; type = type; nullable = true; server_default = false }

abbrev defaulted : Text → ColumnType → Column
defaulted name type = record { name = name; type = type; nullable = false; server_default = true }

-- A column of a model: with `index=True`, and `unique=True`, or neither.
pub record Mapped : Type 0 where
  pub declared : Column
  pub indexed : Bool
  pub unique : Bool

abbrev plain : Column → Mapped
plain c = record { declared = c; indexed = false; unique = false }

abbrev with_index : Column → Mapped
with_index c = record { declared = c; indexed = true; unique = false }

abbrev with_unique_index : Column → Mapped
with_unique_index c = record { declared = c; indexed = true; unique = true }

abbrev pub declared_columns : List Mapped → List Column
declared_columns = map λ m. m.declared

-- `index=True` is an index of its own, `ix_<table>_<column>`.
abbrev indexes_of : Text → List Mapped → List Index
indexes_of table [] = []
indexes_of table (m ∷ ms) =
    let rest = indexes_of table ms in
    if m.indexed
    then record {
      name = text "ix_" ++ table ++ text "_" ++ m.declared.name;
      table = table;
      columns = m.declared.name ∷ [];
      unique = m.unique;
    }
      ∷ rest
    else rest

abbrev side_names : List Text
side_names = text "BUY" ∷ text "SELL" ∷ []

abbrev status_names : List Text
status_names =
    text "PENDING"
    ∷ text "UNKNOWN"
    ∷ text "NEW"
    ∷ text "PARTIALLY_FILLED"
    ∷ text "FILLED"
    ∷ text "CANCELLED"
    ∷ text "REJECTED"
    ∷ text "EXPIRED"
    ∷ text "FAILED"
    ∷ []

-- `User`
unfoldable pub user_columns : List Mapped
user_columns =
    plain (column (text "id") ColumnType.integer)
    ∷ with_unique_index (column (text "email") (ColumnType.varchar 320))
    ∷ plain (column (text "password_hash") (ColumnType.varchar 128))
    ∷ plain (defaulted (text "is_active") ColumnType.boolean)
    ∷ plain (defaulted (text "created_at") ColumnType.timestamp)
    ∷ plain (defaulted (text "updated_at") ColumnType.timestamp)
    ∷ []

-- `Trade`
unfoldable pub trade_columns : List Mapped
trade_columns =
    plain (column (text "id") ColumnType.integer)
    ∷ with_index (column (text "user_id") ColumnType.integer)
    ∷ with_unique_index (column (text "signal_id") (ColumnType.varchar 64))
    ∷ with_unique_index (column (text "client_order_id") (ColumnType.varchar 36))
    ∷ plain (column (text "symbol") (ColumnType.varchar 20))
    ∷ plain (column (text "side") (ColumnType.enumeration side_names 8))
    ∷ plain (defaulted (text "order_type") (ColumnType.varchar 20))
    ∷ plain (column (text "quantity") (ColumnType.numeric 28 12))
    ∷ with_index (column (text "status") (ColumnType.enumeration status_names 20))
    ∷ with_index (optional (text "binance_order_id") ColumnType.big_integer)
    ∷ plain (optional (text "binance_status") (ColumnType.varchar 32))
    ∷ plain (optional (text "executed_quantity") (ColumnType.numeric 28 12))
    ∷ plain (optional (text "cumulative_quote_quantity") (ColumnType.numeric 28 12))
    ∷ plain (optional (text "error_code") (ColumnType.varchar 64))
    ∷ plain (optional (text "error_message") ColumnType.unbounded)
    ∷ plain (optional (text "submitted_at") ColumnType.timestamp)
    ∷ plain (optional (text "reconciled_at") ColumnType.timestamp)
    ∷ with_index (defaulted (text "created_at") ColumnType.timestamp)
    ∷ plain (defaulted (text "updated_at") ColumnType.timestamp)
    ∷ []

-- `Trade.__table_args__`
unfoldable pub trade_table_args : List Index
trade_table_args =
    record {
      name = text "ix_trades_user_id_created_at";
      table = text "trades";
      columns = text "user_id" ∷ text "created_at" ∷ [];
      unique = false;
    }
    ∷ record {
      name = text "ix_trades_status_created_at";
      table = text "trades";
      columns = text "status" ∷ text "created_at" ∷ [];
      unique = false;
    }
    ∷ []

-- `Base.metadata`: the tables, and their indexes.
unfoldable pub metadata_tables : List Table
unfolding user_columns trade_columns
metadata_tables =
    record {
      name = text "users";
      columns = declared_columns user_columns;
      primary_key = text "id";
      foreign_keys = [];
    }
    ∷ record {
      name = text "trades";
      columns = declared_columns trade_columns;
      primary_key = text "id";
      foreign_keys =
          record { column = text "user_id"; target = text "users.id"; cascade = true } ∷ [];
    }
    ∷ []

unfoldable pub metadata_indexes : List Index
unfolding user_columns trade_columns trade_table_args
metadata_indexes =
    indexes_of (text "users") user_columns
    ++ indexes_of (text "trades") trade_columns
    ++ trade_table_args
