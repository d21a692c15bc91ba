-- ===== src/Tests/Database.antt =====
-- The statements of the repositories at concrete rows.
use zolt.Prelude.{text_eq, exists, arith, ◌≡◌, refl, true, false, none, some, codes, select_first}
use zolt.Schema.{JobStatus, fits_varchar, Lease, Db}
use zolt.Monad.{ok, calm}
use zolt.Jobs.Listing.{GetJobsQuery}
use zolt.Jobs.Repository.{
  storable, new_job, key_taken, key_allowed, create_job_with_idempotency, get_job_by_id,
  CreateJobData,
}
use zolt.Leases.{is_valid_at, renewable, find_lease_by_execution_id, acquire_execution_lease}
use zolt.Monad.Atomic.{AllOrNothing}
use zolt.Leases.Exclusive.{acquire-excludes}
use zolt.Scheduler.Repository.{process_job_transaction}
use zolt.Transactions.{
  Submitted, Queued, process_job_transaction-AllOrNothing, create_job_with_idempotency-AllOrNothing,
}
use zolt.Jobs.Deduplication.{create_job_with_idempotency-twice}
use zolt.Tests.Data.{env_at, due_db, before, first_try_there, email_data, failing_insert}

process_job_transaction-AllOrNothing_example :
    AllOrNothing due_db
      (Queued (λ id. false) 10 200 due_db)
      (process_job_transaction (λ id. false) 10 failing_insert)
process_job_transaction-AllOrNothing_example =
    process_job_transaction-AllOrNothing (λ id. false) 10 failing_insert refl

create_job_with_idempotency-AllOrNothing_example :
    AllOrNothing due_db
      (Submitted email_data (codes "welcome-1") 200 due_db)
      (create_job_with_idempotency email_data (codes "welcome-1") failing_insert)
create_job_with_idempotency-AllOrNothing_example =
    create_job_with_idempotency-AllOrNothing email_data (codes "welcome-1") failing_insert refl

not_held : exists (renewable 3 8 200) due_db.leases ≡ false
unfolding exists
not_held = refl

abbrev second_page : GetJobsQuery
second_page = record {
  page = some 2;
  limit = some 5;
  status = some JobStatus.scheduled;
  sort_by = none;
  order = none;
}

held_lapsed : is_valid_at 600 (find_lease_by_execution_id 3 due_db) ≡ false
unfolding find_lease_by_execution_id select_first
held_lapsed = refl

acquire-excludes_example :
    (l : Lease) × (d : Db) × (acquire_execution_lease 3 8 30000 (calm due_db (env_at 600))
      ≡ (ok (some l), calm d (env_at 600)))
    × (l.worker_id ≡ 8)
    × (acquire_execution_lease 3 9 30000 (calm d (record (env_at 600) { now = 700 }))
        ≡ (ok none, calm d (record (env_at 600) { now = 700 })))
acquire-excludes_example =
    acquire-excludes 3 8 30000 9 30000 700 due_db (env_at 600) first_try_there refl held_lapsed
      (omega arith)

abbrev other_data : CreateJobData
other_data = record email_data { title = codes "Other" }

fresh_key : key_taken (codes "welcome-2") due_db ≡ false
unfolding exists text_eq
fresh_key = refl

allowed_key : key_allowed 5 (codes "welcome-2") due_db ≡ true
unfolding exists
allowed_key = refl

unused_id : get_job_by_id 5 due_db ≡ none
unfolding get_job_by_id select_first
unused_id = refl

first_fits : storable email_data ≡ true
unfolding fits_varchar
first_fits = refl

other_fits : storable other_data ≡ true
unfolding fits_varchar
other_fits = refl

create_job_with_idempotency-twice_example :
    let j = new_job email_data 5 200 in
    let w = (create_job_with_idempotency email_data (codes "welcome-2") before).1 in
    ((create_job_with_idempotency email_data (codes "welcome-2") before).0
      ≡ ok (record { job = some j; deduplicated = false }))
    × (create_job_with_idempotency other_data (codes "welcome-2") w
        ≡ (ok (record { job = some j; deduplicated = true }), w))
create_job_with_idempotency-twice_example =
    create_job_with_idempotency-twice email_data other_data (codes "welcome-2") due_db (env_at 200)
      first_fits other_fits fresh_key allowed_key unused_id
