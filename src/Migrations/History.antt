-- ===== src/Migrations/History.antt =====
-- The order of migrations/, and what a database makes of the operations of a migration. PostgreSQL and
-- node-pg-migrate are not under src/: a `Catalog` is a parameter, with laws on the constraints of a table.
use zolt.Prelude.{
  ◌≡◌, Bool, true, false, ◌||◌, ◌&&◌, not, if◌then◌else◌, Option, none, some, List, [], ◌∷◌, ◌++◌,
  Text, text_eq, codes,
}
use zolt.Migrations.{
  Migration, Operation, Column, Constraint, create_table, add_columns, drop_table, drop_columns,
  alter_column, add_constraint, drop_constraint, create_index, drop_index, delete_from, one_of,
  check, foreign_key, unique,
}
use zolt.Migrations.Tables.{
  create_jobs_table, create_execution_tables, create_idempotency_tables, create_outbox_table,
  create_lease_table,
}
use zolt.Migrations.Changes.{
  add_retry_fields_to_execution, add_processing_started_at, add_timestamps_to_idempotency_records,
  add_running_to_jobs_status_check, add_timed_out_to_executions_status_check, fix_leases_worker_id,
  add_worker_crashed_to_executions_status_check, add_hot_path_indexes,
  widen_idempotency_key_to_text, unique_execution_attempt, outbox_published_at_index,
}

-- The migrations before and after the one of leases.worker_id, by the timestamps of the file names.
abbrev pub before_fix : List Migration
before_fix =
    create_jobs_table ∷ create_execution_tables ∷ create_idempotency_tables
    ∷ add_retry_fields_to_execution ∷ create_outbox_table ∷ add_processing_started_at
    ∷ add_timestamps_to_idempotency_records ∷ add_running_to_jobs_status_check
    ∷ add_timed_out_to_executions_status_check ∷ create_lease_table ∷ []

abbrev pub after_fix : List Migration
after_fix =
    add_worker_crashed_to_executions_status_check ∷ add_hot_path_indexes
    ∷ widen_idempotency_key_to_text ∷ unique_execution_attempt ∷ outbox_published_at_index ∷ []

abbrev pub all_migrations : List Migration
all_migrations = before_fix ++ fix_leases_worker_id ∷ after_fix

-- The operations of `node-pg-migrate up`.
unfoldable pub ups : List Migration → List Operation
ups [] = []
ups (m ∷ ms) = m.up ++ ups ms

unfoldable pub listed : Text → List Text → Bool
listed x [] = false
listed x (y ∷ ys) = text_eq x y || listed x ys

-- The constraints that PostgreSQL makes up are named after the table and the column.
unfoldable pub made_up : Text → Text → Text → Text
made_up table column kind = table ++ codes "_" ++ column ++ codes "_" ++ kind

unfoldable pub column_constraints : Text → Column → List Text
unfolding made_up
column_constraints table c =
    let not_null = made_up table c.name (codes "not_null") in
    if c.unique then made_up table c.name (codes "key") ∷ not_null ∷ [] else not_null ∷ []

unfoldable pub columns_constraints : Text → List Column → List Text
unfolding column_constraints
columns_constraints table [] = []
columns_constraints table (c ∷ cs) = column_constraints table c ++ columns_constraints table cs

unfoldable pub table_constraints : Text → List Column → List Text
unfolding columns_constraints
table_constraints table cs = (table ++ codes "_pkey") ∷ columns_constraints table cs

-- Whether a constraint does not speak of the columns, as far as is seen.
unfoldable pub spares : List Text → Option Constraint → Bool
unfolding listed
spares cs none = true
spares cs (some (one_of c values)) = not (listed c cs)
spares cs (some (check c)) = false
spares cs (some (foreign_key c target cascade)) = not (listed c cs)
spares cs (some (unique names)) = false

-- Whether an operation may change the constraint `name` of `table`.
unfoldable pub touches : Text → Text → Operation → Bool
unfolding table_constraints columns_constraints listed made_up
touches table name (create_table t cs) = text_eq table t
touches table name (add_columns t cs) = text_eq table t && listed name (columns_constraints t cs)
touches table name (drop_table t) = text_eq table t
touches table name (drop_columns t cs) = text_eq table t
touches table name (alter_column t c change) =
    text_eq table t && text_eq name (made_up t c (codes "not_null"))
touches table name (add_constraint t n c) = text_eq table t && text_eq name n
touches table name (drop_constraint t n b) = text_eq table t && text_eq name n
touches table name (create_index t cs n b) = false
touches table name (drop_index t cs n b) = false
touches table name (delete_from t c q) = false

pub record Catalog (S : Type 0) : Type 0 where
  pub run : Operation → S → Option S
  pub constraint : Text → Text → S → Option Constraint

module _ {S : Type 0} (catalog : Catalog S) where
  -- One operation after the other, up to the first that fails.
  unfoldable pub run_all : List Operation → S → Option S
  run_all [] s = some s
  run_all (op ∷ ops) s = elim (catalog.run op s) [ none ↦ none | some s' ↦ run_all ops s' ]

-- The documented effect on the constraint `name` of `table`.
pub record IsCatalog {S : Type 0} (catalog : Catalog S) : Type 0 where
  pub created :
      (table name : Text) (cs : List Column) (s s' : S)
      → catalog.run (create_table table cs) s ≡ some s'
      → listed name (table_constraints table cs) ≡ false
      → catalog.constraint table name s' ≡ none
  pub table_dropped :
      (table name : Text) (s s' : S)
      → catalog.run (drop_table table) s ≡ some s'
      → catalog.constraint table name s' ≡ none
  pub added :
      (table name : Text) (c : Constraint) (s s' : S)
      → catalog.run (add_constraint table name c) s ≡ some s'
      → catalog.constraint table name s' ≡ some c
  pub dropped :
      (table name : Text) (if_exists : Bool) (s s' : S)
      → catalog.run (drop_constraint table name if_exists) s ≡ some s'
      → catalog.constraint table name s' ≡ none
  pub missing :
      (table name : Text) (s : S)
      → catalog.constraint table name s ≡ none
      → catalog.run (drop_constraint table name false) s ≡ none
  pub spared :
      (table name : Text) (cs : List Text) (s s' : S)
      → catalog.run (drop_columns table cs) s ≡ some s'
      → spares cs (catalog.constraint table name s) ≡ true
      → catalog.constraint table name s' ≡ catalog.constraint table name s
  pub kept :
      (table name : Text) (op : Operation) (s s' : S)
      → catalog.run op s ≡ some s'
      → touches table name op ≡ false
      → catalog.constraint table name s' ≡ catalog.constraint table name s
