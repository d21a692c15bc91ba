-- ===== src/Migrations/Changes.antt =====
-- The migrations that change tables, each named as its file in migrations/.
use zolt.Prelude.{Bool, true, false, Option, none, some, List, [], ◌∷◌, ◌++◌, Text, codes}
use zolt.Migrations.{
  Migration, Operation, add_columns, drop_columns, alter_column, add_constraint, drop_constraint,
  create_index, drop_index, delete_from, timestamps, nullable, no_change, uuid, text, integer,
  timestamp_with_time_zone, func, status_in, check, unique,
}

-- A migration that replaces a status check drops it and adds it with other statuses.
abbrev replace_check : Text → Text → List Text → List Operation
replace_check table name statuses =
    drop_constraint table name false ∷ add_constraint table name (status_in statuses) ∷ []

abbrev execution_check : List Text → List Operation
execution_check = replace_check (codes "executions") (codes "executions_status_check")

abbrev pub add_retry_fields_to_execution : Migration
add_retry_fields_to_execution = record {
  up =
      add_columns (codes "executions") (nullable (codes "retry_at") timestamp_with_time_zone ∷ [])
      ∷ execution_check (
          codes "SCHEDULED"
          ∷ codes "QUEUED"
          ∷ codes "RUNNING"
          ∷ codes "COMPLETED"
          ∷ codes "FAILED"
          ∷ []);
  down =
      execution_check (codes "QUEUED" ∷ codes "RUNNING" ∷ codes "COMPLETED" ∷ codes "FAILED" ∷ [])
      ++ drop_columns (codes "executions") (codes "retry_at" ∷ []) ∷ [];
}

abbrev pub add_processing_started_at : Migration
add_processing_started_at = record {
  up =
      add_columns (codes "idempotency_records")
        (nullable (codes "processing_started_at") timestamp_with_time_zone ∷ [])
      ∷ [];
  down = drop_columns (codes "idempotency_records") (codes "processing_started_at" ∷ []) ∷ [];
}

abbrev pub add_timestamps_to_idempotency_records : Migration
add_timestamps_to_idempotency_records = record {
  up =
      add_columns (codes "idempotency_records") timestamps
      ∷ create_index (codes "idempotency_records")
          (codes "status" ∷ codes "processing_started_at" ∷ []) none false
      ∷ [];
  down =
      drop_index (codes "idempotency_records") (codes "status" ∷ codes "processing_started_at" ∷ [])
        none false
      ∷ drop_columns (codes "idempotency_records") (codes "created_at" ∷ codes "updated_at" ∷ [])
      ∷ [];
}

abbrev pub add_running_to_jobs_status_check : Migration
add_running_to_jobs_status_check = record {
  up = replace_check (codes "jobs") (codes "job_status_check") (
      codes "SCHEDULED"
      ∷ codes "QUEUED"
      ∷ codes "RUNNING"
      ∷ codes "COMPLETED"
      ∷ codes "FAILED"
      ∷ codes "CANCELLED"
      ∷ []);
  down = replace_check (codes "jobs") (codes "job_status_check") (
      codes "SCHEDULED"
      ∷ codes "QUEUED"
      ∷ codes "COMPLETED"
      ∷ codes "FAILED"
      ∷ codes "CANCELLED"
      ∷ []);
}

abbrev pub add_timed_out_to_executions_status_check : Migration
add_timed_out_to_executions_status_check = record {
  up = execution_check (
      codes "SCHEDULED"
      ∷ codes "QUEUED"
      ∷ codes "RUNNING"
      ∷ codes "COMPLETED"
      ∷ codes "FAILED"
      ∷ codes "TIMED_OUT"
      ∷ []);
  down = execution_check (
      codes "SCHEDULED"
      ∷ codes "QUEUED"
      ∷ codes "RUNNING"
      ∷ codes "COMPLETED"
      ∷ codes "FAILED"
      ∷ []);
}

abbrev pub fix_leases_worker_id : Migration
fix_leases_worker_id = record {
  up =
      drop_constraint (codes "leases") (codes "leases_worker_id_key") false
      ∷ alter_column (codes "leases") (codes "worker_id")
          (record no_change { type = some text; not_null = true })
      ∷ alter_column (codes "leases") (codes "execution_id") (record no_change { not_null = true })
      ∷ alter_column (codes "leases") (codes "created_at")
          (record no_change { default = some (func (codes "CURRENT_TIMESTAMP")) })
      ∷ alter_column (codes "leases") (codes "updated_at")
          (record no_change { default = some (func (codes "CURRENT_TIMESTAMP")) })
      ∷ [];
  down =
      alter_column (codes "leases") (codes "worker_id") (record no_change { type = some integer })
      ∷ add_constraint (codes "leases") (codes "leases_worker_id_key")
          (unique (codes "worker_id" ∷ []))
      ∷ [];
}

abbrev pub add_worker_crashed_to_executions_status_check : Migration
add_worker_crashed_to_executions_status_check = record {
  up = execution_check (
      codes "SCHEDULED"
      ∷ codes "QUEUED"
      ∷ codes "RUNNING"
      ∷ codes "COMPLETED"
      ∷ codes "FAILED"
      ∷ codes "TIMED_OUT"
      ∷ codes "WORKER_CRASHED"
      ∷ []);
  down = execution_check (
      codes "SCHEDULED"
      ∷ codes "QUEUED"
      ∷ codes "RUNNING"
      ∷ codes "COMPLETED"
      ∷ codes "FAILED"
      ∷ codes "TIMED_OUT"
      ∷ []);
}

-- The hot path indexes, each with its name and the option ifNotExists or ifExists.
abbrev hot_path_indexes : (Text → List Text → Option Text → Bool → Operation) → List Operation
hot_path_indexes index =
    index (codes "executions") (codes "status" ∷ codes "retry_at" ∷ [])
      (some (codes "executions_status_retry_at_index")) true
    ∷ index (codes "executions") (codes "status" ∷ codes "updated_at" ∷ [])
        (some (codes "executions_status_updated_at_index")) true
    ∷ index (codes "executions") (codes "job_id" ∷ []) (some (codes "executions_job_id_index")) true
    ∷ index (codes "jobs") (codes "status" ∷ codes "updated_at" ∷ [])
        (some (codes "jobs_status_updated_at_index")) true
    ∷ index (codes "leases") (codes "lease_expires_at" ∷ [])
        (some (codes "leases_lease_expires_at_index")) true
    ∷ index (codes "outbox") (codes "status" ∷ codes "created_at" ∷ [])
        (some (codes "outbox_status_created_at_index")) true
    ∷ []

abbrev pub add_hot_path_indexes : Migration
add_hot_path_indexes = record {
  up = hot_path_indexes create_index;
  down = hot_path_indexes drop_index;
}

abbrev pub widen_idempotency_key_to_text : Migration
widen_idempotency_key_to_text = record {
  up =
      alter_column (codes "idempotency_records") (codes "idempotency_key")
        (record no_change { type = some text; not_null = true })
      ∷ add_constraint (codes "idempotency_records") (codes "idempotency_key_length_check")
          (check (codes "length(idempotency_key) BETWEEN 1 AND 200"))
      ∷ [];
  down =
      drop_constraint (codes "idempotency_records") (codes "idempotency_key_length_check") true
      ∷ alter_column (codes "idempotency_records") (codes "idempotency_key") (record no_change {
        type = some uuid;
        not_null = true;
        using = some (codes "idempotency_key::uuid");
      })
      ∷ [];
}

abbrev ranked_duplicates : Text
ranked_duplicates =
    codes "SELECT id FROM ( SELECT id, row_number() OVER ( PARTITION BY job_id, attempt "
    ++ codes "ORDER BY (status NOT IN ('QUEUED', 'SCHEDULED')) DESC, created_at ASC, id ASC "
    ++ codes ") AS duplicate_rank FROM executions ) ranked WHERE duplicate_rank > 1"

abbrev pub unique_execution_attempt : Migration
unique_execution_attempt = record {
  up =
      delete_from (codes "outbox") (codes "execution_id") ranked_duplicates
      ∷ delete_from (codes "leases") (codes "execution_id") ranked_duplicates
      ∷ delete_from (codes "executions") (codes "id") ranked_duplicates
      ∷ add_constraint (codes "executions") (codes "executions_job_id_attempt_unique")
          (unique (codes "job_id" ∷ codes "attempt" ∷ []))
      ∷ [];
  down = drop_constraint (codes "executions") (codes "executions_job_id_attempt_unique") true ∷ [];
}

abbrev pub outbox_published_at_index : Migration
outbox_published_at_index = record {
  up =
      create_index (codes "outbox") (codes "status" ∷ codes "published_at" ∷ [])
        (some (codes "outbox_status_published_at_index")) true
      ∷ [];
  down =
      drop_index (codes "outbox") (codes "status" ∷ codes "published_at" ∷ [])
        (some (codes "outbox_status_published_at_index")) true
      ∷ [];
}
