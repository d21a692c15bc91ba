-- ===== src/Tests/Claims.antt =====
-- A claim of a due job.
use zolt.Scheduler.Queueing.{pending_for, process_job_transaction-queues}
use zolt.Prelude.{
  ◌≤◌, length, ℕ, ◌≡◌, refl, false, true, some, List, ◌==◌, arith, Ascends, exists, select,
  select_first,
}
use zolt.Outbox.{for_job}
use zolt.Schema.{Db, Job}
use zolt.Scheduler.Repository.{queue_job, process_job_transaction, due_job}
use zolt.Monad.{ok, calm}
use zolt.Tests.Data.{env_at, email, due_db}

ascending : Ascends (λ (j : Job). j.id) 0 2 due_db.jobs
ascending = (omega arith, omega arith)

no_outbox_rows : (n : ℕ) → exists (for_job n) due_db.outbox ≡ false
unfolding exists
no_outbox_rows n = refl

one_due : length (select (due_job (λ id. false) 200) due_db.jobs) ≤ 10
unfolding select
one_due = omega arith

email_found : select_first (λ x. x.id == email.id) due_db.jobs ≡ some email
unfolding select_first
email_found = refl

process_job_transaction-queues_example :
    (rows : List Job) × (d' : Db) × (process_job_transaction
        (λ id. false)
        10
        (calm due_db (env_at 200))
      ≡ (ok rows, calm d' (env_at 200)))
    × (select_first (λ x. x.id == email.id) d'.jobs ≡ some (queue_job 200 email))
    × (exists (pending_for email.id) d'.outbox ≡ true)
process_job_transaction-queues_example =
    process_job_transaction-queues (λ id. false) 10 due_db (env_at 200) 2 email ascending
      (λ n h. no_outbox_rows n) one_due email_found refl
