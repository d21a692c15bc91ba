-- ===== src/Migrations/Tables.antt =====
-- The migrations that create a table: migrations/ …create-jobs-table.ts, …create-execution-tables.ts,
-- …create-idempotency-tables.ts, …create-outbox-table.ts and …create-lease-table.ts.
use zolt.Prelude.{true, false, none, [], ◌∷◌, ◌++◌, codes}
use zolt.Migrations.{
  Migration, create_table, drop_table, add_constraint, create_index, id_column, timestamps,
  nullable, required, defaulted, uuid, text, jsonb, integer, varchar, timestamp_with_time_zone,
  literal, number, status_in, check, foreign_key, one_of,
}

abbrev pub create_jobs_table : Migration
create_jobs_table = record {
  up =
      create_table (codes "jobs") (
        id_column
        ∷ required (codes "title") (varchar 255)
        ∷ required (codes "type") (varchar 100)
        ∷ required (codes "schedule_type") (varchar 20)
        ∷ nullable (codes "payload") jsonb
        ∷ required (codes "run_at") timestamp_with_time_zone
        ∷ defaulted (codes "max_attempts") integer (number 3)
        ∷ defaulted (codes "status") (varchar 20) (literal (codes "SCHEDULED"))
        ∷ timestamps)
      ∷ add_constraint (codes "jobs") (codes "jobs_schedule_type_check")
          (one_of (codes "schedule_type") (codes "IMMEDIATE" ∷ codes "ONCE" ∷ []))
      ∷ add_constraint (codes "jobs") (codes "job_status_check") (
          status_in (
            codes "SCHEDULED"
            ∷ codes "QUEUED"
            ∷ codes "COMPLETED"
            ∷ codes "FAILED"
            ∷ codes "CANCELLED"
            ∷ []))
      ∷ create_index (codes "jobs") (codes "status" ∷ codes "run_at" ∷ []) none false
      ∷ [];
  down = drop_table (codes "jobs") ∷ [];
}

abbrev pub create_execution_tables : Migration
create_execution_tables = record {
  up =
      create_table (codes "executions") (
        id_column
        ∷ required (codes "job_id") uuid
        ∷ defaulted (codes "attempt") integer (number 1)
        ∷ defaulted (codes "status") (varchar 20) (literal (codes "QUEUED"))
        ∷ nullable (codes "started_at") timestamp_with_time_zone
        ∷ nullable (codes "completed_at") timestamp_with_time_zone
        ∷ nullable (codes "error") (varchar 255)
        ∷ timestamps)
      ∷ add_constraint (codes "executions") (codes "executions_status_check")
          (status_in (codes "QUEUED" ∷ codes "RUNNING" ∷ codes "COMPLETED" ∷ codes "FAILED" ∷ []))
      ∷ add_constraint (codes "executions") (codes "executions_job_id_fkey")
          (foreign_key (codes "job_id") (codes "jobs(id)") false)
      ∷ [];
  down = drop_table (codes "executions") ∷ [];
}

abbrev pub create_idempotency_tables : Migration
create_idempotency_tables = record {
  up =
      create_table (codes "idempotency_records") (
        id_column
        ∷ record (required (codes "idempotency_key") uuid) { unique = true }
        ∷ defaulted (codes "status") (varchar 20) (literal (codes "PENDING"))
        ∷ record (required (codes "job_id") uuid) { unique = true }
        ∷ [])
      ∷ add_constraint (codes "idempotency_records") (codes "idempotency_status_check")
          (status_in (codes "PENDING" ∷ codes "PROCESSING" ∷ codes "COMPLETED" ∷ []))
      ∷ add_constraint (codes "idempotency_records") (codes "idempotency_job_id_fkey")
          (foreign_key (codes "job_id") (codes "jobs(id)") true)
      ∷ [];
  down = drop_table (codes "idempotency_records") ∷ [];
}

abbrev pub create_outbox_table : Migration
create_outbox_table = record {
  up =
      create_table (codes "outbox") (
        id_column
        ∷ record (nullable (codes "job_id") uuid) { unique = true }
        ∷ record (nullable (codes "execution_id") uuid) { unique = true }
        ∷ defaulted (codes "status") (varchar 20) (literal (codes "PENDING"))
        ∷ nullable (codes "published_at") timestamp_with_time_zone
        ∷ timestamps)
      ∷ add_constraint (codes "outbox") (codes "outbox_status_check")
          (status_in (codes "PENDING" ∷ codes "PUBLISHED" ∷ []))
      ∷ add_constraint (codes "outbox") (codes "outbox_job_id_fkey")
          (foreign_key (codes "job_id") (codes "jobs(id)") false)
      ∷ add_constraint (codes "outbox") (codes "outbox_execution_id_fkey")
          (foreign_key (codes "execution_id") (codes "executions(id)") false)
      ∷ add_constraint (codes "outbox") (codes "outbox_target_check") (
          check (
            codes "(job_id IS NOT NULL AND execution_id IS NULL) OR "
            ++ codes "(job_id IS NULL AND execution_id IS NOT NULL)"))
      ∷ [];
  down = drop_table (codes "outbox") ∷ [];
}

abbrev pub create_lease_table : Migration
create_lease_table = record {
  up =
      create_table (codes "leases") (
        id_column
        ∷ record (required (codes "execution_id") uuid) { unique = true }
        ∷ required (codes "worker_id") text
        ∷ required (codes "lease_expires_at") timestamp_with_time_zone
        ∷ timestamps)
      ∷ add_constraint (codes "leases") (codes "leases_execution_id_fkey")
          (foreign_key (codes "execution_id") (codes "executions(id)") false)
      ∷ [];
  down = drop_table (codes "leases") ∷ [];
}
