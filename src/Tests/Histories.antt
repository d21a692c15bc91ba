-- ===== src/Tests/Histories.antt =====
-- A run in which a job is claimed, published and executed by a worker, and runs of whole operations.
use zolt.Prelude.{ℕ, ◌≡◌, refl, true, false, none, some, codes}
use zolt.Schema.{immediate, send_email, Db, Job, Execution, IdempotencyRecord}
use zolt.Monad.{ok}
use zolt.Lifecycle.{RecordMoves, JobMoves, ExecutionMoves, DbStep-refl, DbStep, IsWellFormed}
use zolt.Scheduler.Service.{run_scheduler_tick}
use zolt.System.{
  Reach-RecordMoves, Reach-JobMoves, Reach-ExecutionMoves, Reach-IsWellFormed, Step, start, after,
  Reach,
}
use zolt.Worker.{process_entry}
use zolt.Balance.Rules.{Balanced}
use zolt.Executions.Repository.{get_execution_by_id}
use zolt.Idempotency.{get_by_job_id}
use zolt.Jobs.Repository.{get_job_by_id}
use zolt.Jobs.Service.{CreateJobInput}
use zolt.Monad.Evolves.{durable}
use zolt.Balance.{process_entry-Balanced}
use zolt.Balance.Scheduler.{run_scheduler_tick-Balanced}
use zolt.Scheduler.Tick.{run_scheduler_tick-guard}
use zolt.Tests.Data.{
  accepting, refusing, scheduler_config, execution_config, no_locks, quick, env_at, email,
  email_key, first_try, before, due_db-IsWellFormed, run_email, executed_world, email_there,
  first_try_there, email_key_there,
}

history : Reach accepting scheduler_config execution_config quick before executed_world
history =
    after (after (after start (Step.ticks no_locks)) (Step.surroundings (env_at 600)))
      (Step.processes 8 run_email)

no_others : (j : Job) (id : ℕ) (d : Db) → DbStep d ((quick j id).others d)
no_others j id d = DbStep-refl d

Reach-JobMoves_example :
    (j : Job) × (get_job_by_id 1 (durable executed_world) ≡ some j) × JobMoves email j
Reach-JobMoves_example =
    Reach-JobMoves accepting scheduler_config execution_config quick no_others 1 refl
      due_db-IsWellFormed history email_there

Reach-ExecutionMoves_example :
    (e : Execution) × (get_execution_by_id 3 (durable executed_world) ≡ some e)
    × ExecutionMoves first_try e
Reach-ExecutionMoves_example =
    Reach-ExecutionMoves accepting scheduler_config execution_config quick no_others 3 refl
      due_db-IsWellFormed history first_try_there

Reach-RecordMoves_example :
    (r : IdempotencyRecord) × (get_by_job_id 1 (durable executed_world) ≡ some r)
    × RecordMoves email_key r
Reach-RecordMoves_example =
    Reach-RecordMoves accepting scheduler_config execution_config quick no_others 1 refl
      due_db-IsWellFormed history email_key_there

Reach-IsWellFormed_example : IsWellFormed (durable executed_world)
Reach-IsWellFormed_example =
    Reach-IsWellFormed accepting scheduler_config execution_config quick no_others refl
      due_db-IsWellFormed history

process_entry-Balanced_example : Balanced (process_entry execution_config quick 8 run_email)
process_entry-Balanced_example = process_entry-Balanced execution_config quick 8 run_email

run_scheduler_tick-Balanced_example :
    Balanced (run_scheduler_tick refusing scheduler_config no_locks)
run_scheduler_tick-Balanced_example = run_scheduler_tick-Balanced refusing scheduler_config no_locks

abbrev email_input : CreateJobInput
email_input = record {
  title = codes "Welcome";
  type = send_email;
  schedule_type = immediate;
  payload = none;
  run_at = none;
  max_attempts = 3;
}

run_scheduler_tick-guard_example :
    ((run_scheduler_tick refusing scheduler_config no_locks before).0 ≡ ok true)
    × ((run_scheduler_tick refusing scheduler_config no_locks before).1.env.tick_in_flight ≡ false)
run_scheduler_tick-guard_example =
    run_scheduler_tick-guard refusing scheduler_config no_locks before
