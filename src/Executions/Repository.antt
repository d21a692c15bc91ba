-- ===== src/Executions/Repository.antt =====
-- The statements of src/modules/executions/execution.repository.ts on the table executions.
use zolt.Prelude.{
  ℕ, suc, Bool, not, ◌&&◌, ◌||◌, Option, none, some, List, Text, leb, ◌==◌, if◌then◌else◌, select,
  select_first, update, updated_first, exists, insert, sort_by,
}
use zolt.Schema.{cut_varchar, fits_varchar, Db, Execution, ExecutionStatus, execution_running}
use zolt.Monad.{M, Sql, pure, ◌>>=◌, on_row, query, read}

abbrev pub is_attempt : ℕ → ℕ → Execution → Bool
is_attempt job_id attempt e = e.job_id == job_id && e.attempt == attempt

abbrev pub attempt_row : ℕ → ℕ → ExecutionStatus → Option ℕ → ℕ → ℕ → Execution
attempt_row job_id attempt status retry_at id now = record {
  id = id;
  job_id = job_id;
  attempt = attempt;
  status = status;
  started_at = none;
  completed_at = none;
  error = none;
  retry_at = retry_at;
  created_at = now;
  updated_at = now;
}

-- The unique (job_id, attempt) constraint refuses a second row of an attempt.
unfoldable pub insert_execution : ℕ → ℕ → ExecutionStatus → Option ℕ → Sql (Option Execution)
insert_execution job_id attempt status retry_at now db =
    let e = attempt_row job_id attempt status retry_at db.next_id now in
    if exists (is_attempt job_id attempt) db.executions
    then none
    else some (some e, record db { executions = insert e db.executions; next_id = suc db.next_id })

unfoldable pub new_execution : ℕ → ℕ → Option ℕ → ExecutionStatus → M (Option Execution)
new_execution job_id attempt retry_at status =
    query (insert_execution job_id attempt status retry_at)

-- INSERT ... ON CONFLICT (job_id, attempt) DO NOTHING RETURNING *
unfoldable pub insert_initial : ℕ → Sql (Option Execution)
insert_initial job_id now db =
    let e = attempt_row job_id 1 ExecutionStatus.queued none db.next_id now in
    if exists (is_attempt job_id 1) db.executions
    then some (none, db)
    else some (some e, record db { executions = insert e db.executions; next_id = suc db.next_id })

unfoldable pub get_or_create_initial_execution : ℕ → M (Option Execution)
get_or_create_initial_execution job_id = do
  inserted ← query (insert_initial job_id)
  on_row inserted (read (λ now db. select_first (is_attempt job_id 1) db.executions))
      (λ e. pure (some e))

abbrev pub has_id : ℕ → Execution → Bool
has_id id e = e.id == id

unfoldable pub update_execution :
    (Execution → Bool) → (ℕ → Execution → Execution) → Sql (Option Execution)
update_execution hit set now db = some (
  updated_first hit (set now) db.executions,
  record db { executions = update hit (set now) db.executions },
)

abbrev pub fail_with : Text → ℕ → Execution → Execution
fail_with message now e = record e {
  status = ExecutionStatus.failed;
  error = some message;
  completed_at = some now;
  updated_at = now;
}

-- executions.error is varchar(255): a message that does not fit refuses the statement, if it finds a row.
unfoldable pub fail_execution : ℕ → Text → Sql (Option Execution)
unfolding update_execution fits_varchar cut_varchar
fail_execution id message now db =
    if fits_varchar 255 message || not (exists (has_id id) db.executions)
    then update_execution (has_id id) (fail_with (cut_varchar 255 message)) now db
    else none

unfoldable pub failed_execution : ℕ → Text → M (Option Execution)
failed_execution id message = query (fail_execution id message)

abbrev pub succeed : ℕ → Execution → Execution
succeed now e = record e {
  status = ExecutionStatus.completed;
  completed_at = some now;
  updated_at = now;
}

unfoldable pub success_execution : ℕ → M (Option Execution)
success_execution id = query (update_execution (has_id id) succeed)

unfoldable pub get_execution_by_id : ℕ → Db → Option Execution
get_execution_by_id id db = select_first (has_id id) db.executions

-- ORDER BY attempt ASC
unfoldable pub get_executions_by_job_id : ℕ → Db → List Execution
get_executions_by_job_id job_id db =
    sort_by (λ a b. leb a.attempt b.attempt) (select (λ e. e.job_id == job_id) db.executions)

abbrev pub start : ℕ → Execution → Execution
start now e = record e { status = ExecutionStatus.running; started_at = some now; updated_at = now }

unfoldable pub start_execution : ℕ → M (Option Execution)
start_execution id = query (update_execution (has_id id) start)

abbrev pub time_out : ℕ → Execution → Execution
time_out now e = record e {
  status = ExecutionStatus.timed_out;
  updated_at = now;
  completed_at = some now;
}

unfoldable pub timed_out_execution : ℕ → M (Option Execution)
timed_out_execution id = query (update_execution (has_id id) time_out)

abbrev pub crash : ℕ → ℕ → Execution → Execution
crash completed_at now e = record e {
  status = ExecutionStatus.worker_crashed;
  updated_at = now;
  completed_at = some completed_at;
}

-- Only a RUNNING execution is marked.
unfoldable pub mark_worker_crashed : ℕ → ℕ → M (Option Execution)
mark_worker_crashed id completed_at =
    query (update_execution (λ e. has_id id e && execution_running e.status) (crash completed_at))
