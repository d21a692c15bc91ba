-- ===== src/Migrations.antt =====
-- migrations/: the calls of the migration builder of node-pg-migrate, as data, which Tables and Changes use.
-- `Tables` has the migrations that create a table, `Changes` the others, `History` all of them in order and
-- what a database makes of them, which is a parameter, and `Statuses` the texts of the statuses. Tracking,
-- Restored and Checks are proofs.
pub mod Tables
pub mod Changes
pub mod History
pub mod Tracking
pub mod Statuses
pub mod Restored
pub mod Checks
use zolt.Prelude.{ℕ, Bool, true, false, Option, none, some, List, [], ◌∷◌, Text, codes}

pub data ColumnType : Type 0 where
  uuid text jsonb integer timestamp_with_time_zone : ColumnType
  varchar : ℕ → ColumnType

-- `func` is pgm.func(...).
pub data Default : Type 0 where
  func literal : Text → Default
  number : ℕ → Default

pub record Column : Type 0 where
  pub name : Text
  pub type : ColumnType
  pub primary_key : Bool
  pub not_null : Bool
  pub unique : Bool
  pub default : Option Default

-- `one_of` is a check `column IN (...)`, `check` any other.
pub data Constraint : Type 0 where
  one_of : Text → List Text → Constraint
  check : Text → Constraint
  foreign_key : Text → Text → Bool → Constraint
  unique : List Text → Constraint

-- The options of alterColumn.
pub record Change : Type 0 where
  pub type : Option ColumnType
  pub not_null : Bool
  pub default : Option Default
  pub using : Option Text

-- The columns of an index, with the option `name`. The flag is the option ifNotExists or ifExists.
pub data Operation : Type 0 where
  create_table add_columns : Text → List Column → Operation
  drop_table : Text → Operation
  drop_columns : Text → List Text → Operation
  alter_column : Text → Text → Change → Operation
  add_constraint : Text → Text → Constraint → Operation
  drop_constraint : Text → Text → Bool → Operation
  create_index drop_index : Text → List Text → Option Text → Bool → Operation
  -- pgm.sql of `DELETE FROM table WHERE column IN (query)`
  delete_from : Text → Text → Text → Operation

pub record Migration : Type 0 where
  pub up : List Operation
  pub down : List Operation

-- { type }
abbrev pub nullable : Text → ColumnType → Column
nullable name type = record {
  name = name;
  type = type;
  primary_key = false;
  not_null = false;
  unique = false;
  default = none;
}

-- { type, notNull: true }
abbrev pub required : Text → ColumnType → Column
required name type = record (nullable name type) { not_null = true }

-- { type, notNull: true, default }
abbrev pub defaulted : Text → ColumnType → Default → Column
defaulted name type value = record (required name type) { default = some value }

-- The column `id` of each table.
abbrev pub id_column : Column
id_column = record (nullable (codes "id") uuid) {
  primary_key = true;
  default = some (func (codes "gen_random_uuid()"));
}

-- The columns `created_at` and `updated_at`.
abbrev pub timestamps : List Column
timestamps =
    defaulted (codes "created_at") timestamp_with_time_zone (func (codes "CURRENT_TIMESTAMP"))
    ∷ defaulted (codes "updated_at") timestamp_with_time_zone (func (codes "CURRENT_TIMESTAMP"))
    ∷ []

abbrev pub no_change : Change
no_change = record { type = none; not_null = false; default = none; using = none }

abbrev pub status_in : List Text → Constraint
status_in = one_of (codes "status")
