-- ===== src/Tests/Publishing.antt =====
-- A tick whose queue takes nothing.
use zolt.Prelude.{◌≡◌, refl, false, none, some, [], ◌∷◌, delete}
use zolt.Schema.{Db, Outbox, OutboxStatus}
use zolt.Monad.{calm, ok}
use zolt.Tests.Data.{due_db, env_at, refusing}
use zolt.Scheduler.Service.{process_pending_outbox}
use zolt.Outbox.{prunable}
use zolt.Scheduler.Publishing.{process_pending_outbox-keeps, kept_pending}

abbrev pub waiting_row : Outbox
waiting_row = record {
  id = 5;
  job_id = some 1;
  execution_id = none;
  status = OutboxStatus.pending;
  published_at = none;
  created_at = 100;
  updated_at = 100;
}

abbrev pub waiting_db : Db
waiting_db = record due_db {
  outbox = waiting_row ∷ record waiting_row { id = 6; job_id = none; execution_id = some 3 } ∷ [];
}

process_pending_outbox-keeps_example :
    let r = process_pending_outbox refusing (λ id. false) 10 1000 (calm waiting_db (env_at 200)) in
    (r.0 ≡ ok 0)
    × (r.1.db.outbox ≡ delete (prunable 1000 200) (kept_pending (λ id. false) 10 waiting_db 200))
    × (r.1.db.jobs ≡ waiting_db.jobs)
    × (r.1.db.executions ≡ waiting_db.executions)
process_pending_outbox-keeps_example =
    process_pending_outbox-keeps refusing (λ bs q. refl) (λ id. false) 10 1000 waiting_db
      (env_at 200) (refl, (refl, tt))
