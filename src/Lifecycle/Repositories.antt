-- ===== src/Lifecycle/Repositories.antt =====
-- The operations of the repositories of src/modules, as steps in the lives of the rows.
use zolt.Prelude.{ℕ, ◌≡◌, Bool, true, Option, Text, List, arith}
use zolt.Schema.{job_scheduled, job_queued, JobStatus, ExecutionStatus}
use zolt.Lifecycle.{job_reaches}
use zolt.Lifecycle.Rules.{Lives, lives, query-Lives}
use zolt.Lifecycle.Statements.{
  claim_pending-Follows, claim_rows-Follows, complete_processing-Follows, crash-Follows,
  extend_lease-Follows, fail_execution-Follows, insert_execution-Follows,
  insert_execution_outbox-Follows, insert_initial-Follows, insert_job-Follows,
  insert_job_outbox-Follows, insert_key-Follows, prune_rows-Follows, reset_processing-Follows,
  reset_rows-Follows, reset_stale-Follows, set_job_status-Follows, start-Follows, succeed-Follows,
  time_out-Follows, write_lease-Follows,
}
use zolt.Jobs.Repository.{
  CreateJobData, create_job_with_idempotency, cancel_job_status, success_job, failed_job, start_job,
  not_terminal,
}
use zolt.Executions.Repository.{
  new_execution, get_or_create_initial_execution, failed_execution, success_execution,
  start_execution, timed_out_execution, mark_worker_crashed,
}
use zolt.Idempotency.{
  claim_idempotency, complete_idempotency, reset_to_pending, reset_stale_processing_record,
}
use zolt.Leases.{acquire_execution_lease, renew_lease}
use zolt.Outbox.{
  create_job_outbox, create_execution_outbox, claim_pending_outbox, delete_published_outbox_before,
  reset_outbox_to_pending,
}

to_completed : (t : JobStatus) → not_terminal t ≡ true → job_reaches t JobStatus.completed ≡ true
to_completed t h = ground arith

to_failed : (t : JobStatus) → not_terminal t ≡ true → job_reaches t JobStatus.failed ≡ true
to_failed t h = ground arith

to_cancelled : (t : JobStatus) → job_scheduled t ≡ true → job_reaches t JobStatus.cancelled ≡ true
to_cancelled t h = ground arith

to_running : (t : JobStatus) → job_queued t ≡ true → job_reaches t JobStatus.running ≡ true
to_running t h = ground arith

pub cancel_job_status-Lives : (id : ℕ) → Lives (cancel_job_status id)
unfolding cancel_job_status
cancel_job_status-Lives id =
    query-Lives (set_job_status-Follows job_scheduled JobStatus.cancelled id to_cancelled)

pub success_job-Lives : (id : ℕ) → Lives (success_job id)
unfolding success_job
success_job-Lives id =
    query-Lives (set_job_status-Follows not_terminal JobStatus.completed id to_completed)

pub failed_job-Lives : (id : ℕ) → Lives (failed_job id)
unfolding failed_job
failed_job-Lives id =
    query-Lives (set_job_status-Follows not_terminal JobStatus.failed id to_failed)

pub start_job-Lives : (id : ℕ) → Lives (start_job id)
unfolding start_job
start_job-Lives id = query-Lives (set_job_status-Follows job_queued JobStatus.running id to_running)

pub create_job_with_idempotency-Lives :
    (c : CreateJobData) (k : Text) → Lives (create_job_with_idempotency c k)
unfolding create_job_with_idempotency
create_job_with_idempotency-Lives c k =
    search (lives, query-Lives, insert_job-Follows, insert_key-Follows) depth 30

pub new_execution-Lives :
    (job_id attempt : ℕ) (at : Option ℕ) (s : ExecutionStatus)
    → Lives (new_execution job_id attempt at s)
unfolding new_execution
new_execution-Lives job_id attempt at s = query-Lives (insert_execution-Follows job_id attempt s at)

pub get_or_create_initial_execution-Lives :
    (job_id : ℕ) → Lives (get_or_create_initial_execution job_id)
unfolding get_or_create_initial_execution
get_or_create_initial_execution-Lives job_id =
    search (lives, query-Lives, insert_initial-Follows) depth 10

pub failed_execution-Lives : (id : ℕ) (m : Text) → Lives (failed_execution id m)
unfolding failed_execution
failed_execution-Lives id m = query-Lives (fail_execution-Follows id m)

pub success_execution-Lives : (id : ℕ) → Lives (success_execution id)
unfolding success_execution
success_execution-Lives id = query-Lives (succeed-Follows id)

pub start_execution-Lives : (id : ℕ) → Lives (start_execution id)
unfolding start_execution
start_execution-Lives id = query-Lives (start-Follows id)

pub timed_out_execution-Lives : (id : ℕ) → Lives (timed_out_execution id)
unfolding timed_out_execution
timed_out_execution-Lives id = query-Lives (time_out-Follows id)

pub mark_worker_crashed-Lives : (id at : ℕ) → Lives (mark_worker_crashed id at)
unfolding mark_worker_crashed
mark_worker_crashed-Lives id at = query-Lives (crash-Follows _ at)

pub claim_idempotency-Lives : (k : Text) → Lives (claim_idempotency k)
unfolding claim_idempotency
claim_idempotency-Lives k = search (lives, query-Lives, claim_pending-Follows) depth 12

pub complete_idempotency-Lives : (k : Text) → Lives (complete_idempotency k)
unfolding complete_idempotency
complete_idempotency-Lives k = search (lives, query-Lives, complete_processing-Follows) depth 12

pub reset_to_pending-Lives : (k : Text) → Lives (reset_to_pending k)
unfolding reset_to_pending
reset_to_pending-Lives k = search (lives, query-Lives, reset_processing-Follows) depth 12

pub reset_stale_processing_record-Lives :
    (id timeout : ℕ) → Lives (reset_stale_processing_record id timeout)
unfolding reset_stale_processing_record
reset_stale_processing_record-Lives id timeout = query-Lives (reset_stale-Follows id timeout)

pub acquire_execution_lease-Lives :
    (id worker duration : ℕ) → Lives (acquire_execution_lease id worker duration)
unfolding acquire_execution_lease
acquire_execution_lease-Lives id worker duration =
    search (lives, query-Lives, write_lease-Follows) depth 30

pub renew_lease-Lives : (id worker duration : ℕ) → Lives (renew_lease id worker duration)
unfolding renew_lease
renew_lease-Lives id worker duration = query-Lives (extend_lease-Follows id worker duration)

pub create_job_outbox-Lives : (id : ℕ) → Lives (create_job_outbox id)
unfolding create_job_outbox
create_job_outbox-Lives id = query-Lives (insert_job_outbox-Follows id)

pub create_execution_outbox-Lives : (id : ℕ) → Lives (create_execution_outbox id)
unfolding create_execution_outbox
create_execution_outbox-Lives id = query-Lives (insert_execution_outbox-Follows id)

pub claim_pending_outbox-Lives :
    (locked : ℕ → Bool) (limit : ℕ) → Lives (claim_pending_outbox locked limit)
unfolding claim_pending_outbox
claim_pending_outbox-Lives locked limit = query-Lives (claim_rows-Follows locked limit)

pub delete_published_outbox_before-Lives :
    (retention : ℕ) → Lives (delete_published_outbox_before retention)
unfolding delete_published_outbox_before
delete_published_outbox_before-Lives retention = query-Lives (prune_rows-Follows retention)

pub reset_outbox_to_pending-Lives : (ids : List ℕ) → Lives (reset_outbox_to_pending ids)
unfolding reset_outbox_to_pending
reset_outbox_to_pending-Lives ids = search (lives, query-Lives, reset_rows-Follows) depth 12
