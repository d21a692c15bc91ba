-- ===== src/Lifecycle/Statements.antt =====
-- The statements of the repositories of src/modules, as steps in the lives of the rows.
use zolt.Prelude.{
  Distinct-update, Distinct-insert, Ascends-update, Ascends-insert, List, suc, ◌≤◌, ℕ, ◌≡◌, refl,
  Bool, true, false, ◌&&◌, Option, none, some, arith, Text, ◌==◌, Bool-cases, inl, inr, insert,
  Rows-update, Rows-insert, exists,
}
use zolt.Schema.{
  cut_varchar, Db, Job, JobStatus, Execution, ExecutionStatus, IdempotencyRecord, IdempotencyStatus,
  Lease, record_pending, record_processing,
}
use zolt.Monad.Evolves.{Follows, Lands, lands, refused, if-Lands}
use zolt.Lifecycle.{
  job_key, execution_key, records-DbStep, outbox-DbStep, leases-DbStep, jobs-DbStep,
  executions-DbStep, DbStep-refl, same_attempt_row, DbStep, job_reaches, JobMoves, ExecutionMoves,
  RecordMoves, LeaseMoves, JobMoves-refl, ExecutionMoves-refl, RecordMoves-refl, LeaseMoves-refl,
  stage, status-JobMoves, record_reaches,
}
use zolt.Jobs.Repository.{
  new_job, key_allowed, key_taken, with_record, CreateJobData, insert_job, insert_key,
  set_job_status,
}
use zolt.Executions.Repository.{
  attempt_row, is_attempt, insert_execution, insert_initial, update_execution, fail_execution,
  has_id, fail_with, succeed, start, time_out, crash,
}
use zolt.Idempotency.{
  is_stale, moved_to, update_records, claim_pending, complete_processing, reset_processing,
  reset_stale,
}
use zolt.Leases.{insert_lease, update_lease, take_over_lease, extend_lease, write_lease}
use zolt.Outbox.{insert_job_outbox, insert_execution_outbox, claim_rows, prune_rows, reset_rows}

pub &&-right : (a b : Bool) → (a && b) ≡ true → b ≡ true
&&-right a b h = ground arith

&&-left : (a b : Bool) → (a && b) ≡ true → a ≡ true
&&-left a b h = ground arith

stage-le : (s : ExecutionStatus) → stage s ≤ 2
stage-le s = ground arith

pub insert_job-Follows : (c : CreateJobData) → Follows DbStep (insert_job c)
unfolding insert_job
insert_job-Follows c now d =
    if-Lands DbStep d _ _ _
      (lands (
        jobs-DbStep d (suc d.next_id) _ (omega arith) (λ wf. (
          Ascends-insert job_key 0 d.next_id (new_job c d.next_id now) d.jobs refl wf.job_ids,
          Rows-insert JobMoves JobMoves-refl _ d.jobs,
        ))))
      refused

pub insert_key-Follows : (job_id : ℕ) (k : Text) → Follows DbStep (insert_key job_id k)
unfolding insert_key
insert_key-Follows job_id k now d =
    if-Lands DbStep d (key_taken k d) (some (0, d)) _ (lands (DbStep-refl d)) (
      if-Lands DbStep d (key_allowed job_id k d) (some (1, with_record job_id k now d)) none
        (lands added) refused)
  where
    added : DbStep d (with_record job_id k now d)
    added =
        records-DbStep d (suc d.next_id) _ (omega arith)
          (Rows-insert RecordMoves RecordMoves-refl _ d.idempotency_records)

-- Updates of a job's status that lead forward from each status which they are guarded by.
pub set_job_status-Follows :
    (from : JobStatus → Bool) (s : JobStatus) (id : ℕ)
    → ((t : JobStatus) → from t ≡ true → job_reaches t s ≡ true)
    → Follows DbStep (set_job_status from s id)
unfolding set_job_status
set_job_status-Follows from s id ok now d = lands (
    jobs-DbStep d d.next_id _ (omega arith) (λ wf. (
      Ascends-update job_key hit set (λ j. refl) 0 d.next_id d.jobs wf.job_ids,
      Rows-update JobMoves hit set JobMoves-refl
          (λ j t. status-JobMoves j s now (ok j.status (&&-right _ _ t))) d.jobs,
    )))
  where
    hit : Job → Bool
    hit j = j.id == id && from j.status

    set : Job → Job
    set j = record j { status = s; updated_at = now }

attempt_symmetric : (a b : Execution) → same_attempt_row a b ≡ same_attempt_row b a
attempt_symmetric a b = ground arith

-- A new attempt, which the unique constraint has let through.
added-Lands :
    (job_id attempt : ℕ) (s : ExecutionStatus) (at : Option ℕ) (now : ℕ) (d : Db)
    → exists (is_attempt job_id attempt) d.executions ≡ false
    → let e = attempt_row job_id attempt s at d.next_id now in
      DbStep d (record d { executions = insert e d.executions; next_id = suc d.next_id })
added-Lands job_id attempt s at now d new =
    let e = attempt_row job_id attempt s at d.next_id now in
    executions-DbStep d (suc d.next_id) _ (omega arith) (λ wf. (
      Ascends-insert execution_key 0 d.next_id e d.executions refl wf.execution_ids,
      Distinct-insert same_attempt_row e (λ x. attempt_symmetric x e) d.executions new wf.attempts,
      Rows-insert ExecutionMoves ExecutionMoves-refl e d.executions,
    ))

pub insert_execution-Follows :
    (job_id attempt : ℕ) (s : ExecutionStatus) (retry_at : Option ℕ)
    → Follows DbStep (insert_execution job_id attempt s retry_at)
unfolding insert_execution
insert_execution-Follows job_id attempt s retry_at now d =
    elim (Bool-cases (exists (is_attempt job_id attempt) d.executions)) [
      | inl old ↦ rw old refused
      | inr new ↦ rw new (lands (added-Lands job_id attempt s retry_at now d new))
    ]

pub insert_initial-Follows : (job_id : ℕ) → Follows DbStep (insert_initial job_id)
unfolding insert_initial
insert_initial-Follows job_id now d =
    elim (Bool-cases (exists (is_attempt job_id 1) d.executions)) [
      | inl old ↦ rw old (lands (DbStep-refl d))
      | inr new ↦ rw new (lands (added-Lands job_id 1 ExecutionStatus.queued none now d new))
    ]

-- Updates of executions that leave each row the attempt that it is.
pub update_execution-Follows :
    (hit : Execution → Bool) (set : ℕ → Execution → Execution)
    → ((now : ℕ) (e : Execution) → ExecutionMoves e (set now e))
    → Follows DbStep (update_execution hit set)
unfolding update_execution
update_execution-Follows hit set step now d = lands (
    executions-DbStep d d.next_id _ (omega arith) (λ wf. (
      Ascends-update execution_key hit (set now) (λ e. (step now e).same_id) 0 d.next_id
          d.executions wf.execution_ids,
      Distinct-update same_attempt_row hit (set now)
          (λ x y. rw ((step now x).same_job, (step now x).same_attempt))
          (λ x y. rw ((step now y).same_job, (step now y).same_attempt)) d.executions wf.attempts,
      Rows-update ExecutionMoves hit (set now) ExecutionMoves-refl (λ e _. step now e) d.executions,
    )))

-- An update that leaves the attempt what it is and sets a status of the last stage.
closed-ExecutionMoves :
    (a b : Execution)
    → b.id ≡ a.id
    → b.job_id ≡ a.job_id
    → b.attempt ≡ a.attempt
    → stage b.status ≡ 2
    → ExecutionMoves a b
closed-ExecutionMoves a b i j k s = record {
  same_id = i;
  same_job = j;
  same_attempt = k;
  forward = rw s (stage-le a.status);
}

pub succeed-Follows : (id : ℕ) → Follows DbStep (update_execution (has_id id) succeed)
succeed-Follows id =
    update_execution-Follows (has_id id) succeed
      (λ now e. closed-ExecutionMoves e (succeed now e) refl refl refl refl)

pub start-Follows : (id : ℕ) → Follows DbStep (update_execution (has_id id) start)
start-Follows id =
    update_execution-Follows (has_id id) start
      (λ now e. closed-ExecutionMoves e (start now e) refl refl refl refl)

pub time_out-Follows : (id : ℕ) → Follows DbStep (update_execution (has_id id) time_out)
time_out-Follows id =
    update_execution-Follows (has_id id) time_out
      (λ now e. closed-ExecutionMoves e (time_out now e) refl refl refl refl)

pub crash-Follows :
    (hit : Execution → Bool) (completed_at : ℕ)
    → Follows DbStep (update_execution hit (crash completed_at))
crash-Follows hit completed_at =
    update_execution-Follows hit (crash completed_at)
      (λ now e. closed-ExecutionMoves e (crash completed_at now e) refl refl refl refl)

pub fail_execution-Follows : (id : ℕ) (message : Text) → Follows DbStep (fail_execution id message)
unfolding fail_execution
fail_execution-Follows id message now d =
    if-Lands DbStep d _ _ _
      (update_execution-Follows (has_id id) (fail_with (cut_varchar 255 message))
        (λ now e.
          closed-ExecutionMoves e (fail_with (cut_varchar 255 message) now e) refl refl refl refl)
        now d)
      refused

update_records-Lands :
    (hit : IdempotencyRecord → Bool) (set : IdempotencyRecord → IdempotencyRecord) (d : Db)
    → ((r : IdempotencyRecord) → hit r ≡ true → RecordMoves r (set r))
    → Lands DbStep d (update_records hit set d)
unfolding update_records
update_records-Lands hit set d step = lands (
    records-DbStep d d.next_id _ (omega arith)
      (Rows-update RecordMoves hit set RecordMoves-refl step d.idempotency_records))

moved_to-RecordMoves :
    (s : IdempotencyStatus) (t : Option ℕ) (now : ℕ) (r : IdempotencyRecord)
    → record_reaches r.status s ≡ true
    → RecordMoves r (moved_to s t now r)
moved_to-RecordMoves s t now r h = record {
  same_id = refl;
  same_job = refl;
  same_key = refl;
  forward = h;
}

from_pending : (s t : IdempotencyStatus) → record_pending s ≡ true → record_reaches s t ≡ true
from_pending s t h = ground arith

from_processing : (s t : IdempotencyStatus) → record_processing s ≡ true → record_reaches s t ≡ true
from_processing s t h = ground arith

pub claim_pending-Follows : (k : Text) → Follows DbStep (claim_pending k)
unfolding claim_pending
claim_pending-Follows k now d =
    update_records-Lands _ _ d
      (λ r h. moved_to-RecordMoves _ _ now r (from_pending r.status _ (&&-right _ _ h)))

pub complete_processing-Follows : (k : Text) → Follows DbStep (complete_processing k)
unfolding complete_processing
complete_processing-Follows k now d =
    update_records-Lands _ _ d
      (λ r h. moved_to-RecordMoves _ _ now r (from_processing r.status _ (&&-right _ _ h)))

pub reset_processing-Follows : (k : Text) → Follows DbStep (reset_processing k)
unfolding reset_processing
reset_processing-Follows k now d =
    update_records-Lands _ _ d
      (λ r h. moved_to-RecordMoves _ _ now r (from_processing r.status _ (&&-right _ _ h)))

stale-processing :
    (timeout now : ℕ) (d : Db) (r : IdempotencyRecord)
    → is_stale timeout now d r ≡ true
    → record_processing r.status ≡ true
unfolding is_stale
stale-processing timeout now d r h = &&-left _ _ (&&-left _ _ h)

pub reset_stale-Follows : (id timeout : ℕ) → Follows DbStep (reset_stale id timeout)
unfolding reset_stale
reset_stale-Follows id timeout now d = update_records-Lands _ _ d (λ r h.
    moved_to-RecordMoves _ _ now r
      (from_processing r.status _ (stale-processing timeout now d r (&&-right _ _ h))))

insert_lease-Follows : (id worker duration : ℕ) → Follows DbStep (insert_lease id worker duration)
unfolding insert_lease
insert_lease-Follows id worker duration now d = if-Lands DbStep d _ _ _ refused (
    lands (
      leases-DbStep d (suc d.next_id) _ (omega arith)
        (Rows-insert LeaseMoves LeaseMoves-refl _ d.leases)))

update_lease-Follows :
    (hit : ℕ → Lease → Bool) (set : ℕ → Lease → Lease)
    → ((now : ℕ) (l : Lease) → LeaseMoves l (set now l))
    → Follows DbStep (update_lease hit set)
unfolding update_lease
update_lease-Follows hit set step now d = lands (
    leases-DbStep d d.next_id _ (omega arith)
      (Rows-update LeaseMoves (hit now) (set now) LeaseMoves-refl (λ l _. step now l) d.leases))

pub extend_lease-Follows :
    (id worker duration : ℕ) → Follows DbStep (extend_lease id worker duration)
unfolding extend_lease
extend_lease-Follows id worker duration =
    update_lease-Follows _ _ (λ now l. record { same_id = refl; same_execution = refl })

pub write_lease-Follows :
    (id worker duration : ℕ) (l : Option Lease) → Follows DbStep (write_lease id worker duration l)
unfolding take_over_lease
write_lease-Follows id worker duration none = insert_lease-Follows id worker duration
write_lease-Follows id worker duration (some _) =
    update_lease-Follows _ _ (λ now l. record { same_id = refl; same_execution = refl })

pub insert_job_outbox-Follows : (job_id : ℕ) → Follows DbStep (insert_job_outbox job_id)
unfolding insert_job_outbox
insert_job_outbox-Follows job_id now d =
    if-Lands DbStep d _ _ _ refused (lands (outbox-DbStep d (suc d.next_id) _ (omega arith)))

pub insert_execution_outbox-Follows : (id : ℕ) → Follows DbStep (insert_execution_outbox id)
unfolding insert_execution_outbox
insert_execution_outbox-Follows id now d =
    if-Lands DbStep d _ _ _ refused (lands (outbox-DbStep d (suc d.next_id) _ (omega arith)))

pub claim_rows-Follows : (locked : ℕ → Bool) (limit : ℕ) → Follows DbStep (claim_rows locked limit)
unfolding claim_rows
claim_rows-Follows locked limit now d = lands (outbox-DbStep d d.next_id _ (omega arith))

pub prune_rows-Follows : (retention : ℕ) → Follows DbStep (prune_rows retention)
unfolding prune_rows
prune_rows-Follows retention now d = lands (outbox-DbStep d d.next_id _ (omega arith))

pub reset_rows-Follows : (ids : List ℕ) → Follows DbStep (reset_rows ids)
unfolding reset_rows
reset_rows-Follows ids now d = lands (outbox-DbStep d d.next_id _ (omega arith))
