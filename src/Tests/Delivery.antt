-- ===== src/Tests/Delivery.antt =====
-- A tick whose queue takes what is added.
use zolt.Prelude.{
  ◌||◌, not, updated, length, sort_by, select, false, Bool, ◌≡◌, refl, true, some, List, [], ◌∷◌,
  ◌++◌, map, exists, select_first, contains, ◌==◌, arith,
}
use zolt.Scheduler.Delivery.{Accepts, has_entry, same_id, process_pending_outbox-delivers}
use zolt.Monad.{ok, calm, QueueId, job_queue_id, QueueEntry}
use zolt.Outbox.{publish, ids_of, claimable}
use zolt.Queue.{BulkJob}
use zolt.Scheduler.Service.{process_pending_outbox}
use zolt.Tests.Data.{env_at, entry_of, accepting}
use zolt.Tests.Publishing.{waiting_row, waiting_db}

appended :
    (p : QueueEntry → Bool) (q r : List QueueEntry) → exists p q ≡ true → exists p (q ++ r) ≡ true
unfolding exists
appended p [] r h = ground arith
appended p (e ∷ q) r h = ground (arith, appended p q r)

prepended :
    (p : QueueEntry → Bool) (q r : List QueueEntry) → exists p r ≡ true → exists p (q ++ r) ≡ true
unfolding exists
prepended p [] r h = h
prepended p (e ∷ q) r h = ground (arith, prepended p q r h)

entries :
    (bs : List BulkJob) (id : QueueId)
    → exists (λ b. same_id b.queue_id id) bs ≡ true
    → exists (λ e. same_id e.queue_id id) (map entry_of bs) ≡ true
unfolding exists
entries [] id h = h
entries (b ∷ bs) id h = ground (arith, entries bs id)

accepting-Accepts : Accepts accepting
unfolding has_entry
accepting-Accepts = record {
  grown = λ bs q. q ++ map entry_of bs;
  adds = λ bs q. refl;
  there = λ bs q id h. prepended _ q (map entry_of bs) (entries bs id h);
  kept = λ bs q id h. appended _ q (map entry_of bs) h;
}

row_found : select_first (λ x. x.id == waiting_row.id) waiting_db.outbox ≡ some waiting_row
unfolding select_first
row_found = refl

row_claimed : contains (ids_of (claimable (λ id. false) 10 waiting_db.outbox)) waiting_row.id ≡ true
unfolding claimable contains select sort_by
row_claimed = refl

process_pending_outbox-delivers_example :
    let r = process_pending_outbox accepting (λ id. false) 10 1000 (calm waiting_db (env_at 200)) in
    (r.0
      ≡ ok (
          length (
            updated
              (λ x. contains (ids_of (claimable (λ id. false) 10 waiting_db.outbox)) x.id)
              (publish 200)
              waiting_db.outbox)))
    × (has_entry (job_queue_id 1) r.1.env.queue ≡ true)
    × ((not (has_entry (job_queue_id 3) []) || has_entry (job_queue_id 3) r.1.env.queue) ≡ true)
    × (r.1.db.jobs ≡ waiting_db.jobs)
    × (r.1.db.executions ≡ waiting_db.executions)
process_pending_outbox-delivers_example =
    process_pending_outbox-delivers accepting accepting-Accepts (λ id. false) 10 1000 waiting_db
      (env_at 200) waiting_row 1 (job_queue_id 3) row_found row_claimed refl
