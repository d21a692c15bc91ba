-- ===== src/Scheduler/Delivery.antt =====
-- That what a tick claims reaches the queue (processPendingOutbox of src/modules/scheduler/scheduler.service.ts).
use zolt.Prelude.{
  ◌||◌, not, same_number, ==→eq, ℕ, ◌≡◌, refl, sym, ap, ◌∙◌, Bool, true, false, ◌==◌, if◌then◌else◌,
  Option, none, some, List, [], ◌∷◌, map, length, select, select_first, update, updated, contains,
  exists, Bool-cases, inl, inr, arith,
}
use zolt.Schema.{Db, Outbox}
use zolt.Monad.{World, ok, calm, Env, QueueEntry, QueueId, job_queue_id, execution_queue_id}
use zolt.Monad
use zolt.Queue.{
  job_bulk, execution_bulk, add_entries, enqueue_jobs, enqueue_executions, Bullmq, AddResult,
  BulkJob,
}
use zolt.Scheduler.Service.{
  logged, prune_published_outbox, update_outbox_metrics, process_pending_outbox, publish_executions,
  has_job, has_execution, publish_jobs, job_ids, execution_ids, publish_claimed,
}
use zolt.Outbox.{
  claimable, ids_of, prune_rows, delete_published_outbox_before, claim_rows, claim_pending_outbox,
  publish,
}

abbrev pub same_id : QueueId → QueueId → Bool
same_id (job_queue_id n) (job_queue_id m) = n == m
same_id (execution_queue_id n) (execution_queue_id m) = n == m
same_id (job_queue_id n) (execution_queue_id m) = false
same_id (execution_queue_id n) (job_queue_id m) = false

-- The queue holds an entry with the id.
unfoldable pub has_entry : QueueId → List QueueEntry → Bool
has_entry id q = exists (λ e. same_id e.queue_id id) q

-- A BullMQ that takes what is added: afterwards an entry is there for each id, and none has gone.
pub record Accepts (bull : Bullmq) : Type 0 where
  pub grown : List BulkJob → List QueueEntry → List QueueEntry
  pub adds :
      (bs : List BulkJob) (q : List QueueEntry) → bull.add_bulk bs q ≡ AddResult.added (grown bs q)
  pub there :
      (bs : List BulkJob) (q : List QueueEntry) (id : QueueId)
      → exists (λ b. same_id b.queue_id id) bs ≡ true
      → has_entry id (grown bs q) ≡ true
  pub kept :
      (bs : List BulkJob) (q : List QueueEntry) (id : QueueId)
      → has_entry id q ≡ true
      → has_entry id (grown bs q) ≡ true

bulk_there :
    (n : ℕ) (ids : List ℕ)
    → contains ids n ≡ true
    → exists (λ b. same_id b.queue_id (job_queue_id n)) (map job_bulk ids) ≡ true
unfolding contains exists
bulk_there n [] h = ground arith
bulk_there n (i ∷ is) h = ground (arith, bulk_there n is)

first_job :
    (n : ℕ) (o : Outbox) (rest : List Outbox)
    → o.job_id ≡ some n
    → contains (job_ids (select has_job (o ∷ rest))) n ≡ true
unfolding select contains
first_job n o rest e = rw (e, same_number n) refl

claimed_first :
    (n : ℕ) (b : Bool) (o : Outbox) (rest : List Outbox)
    → b ≡ true
    → o.job_id ≡ some n
    → contains (job_ids (select has_job (if b then o ∷ rest else rest))) n ≡ true
claimed_first n true o rest h e = first_job n o rest e
claimed_first n false o rest h e = ground arith

or_here : (b c : Bool) → c ≡ true → (if b then true else c) ≡ true
or_here b c h = ground arith

later_job :
    (n : ℕ) (b : Bool) (o : Outbox) (rest : List Outbox) (t : Option ℕ)
    → o.job_id ≡ t
    → contains (job_ids (select has_job rest)) n ≡ true
    → contains (job_ids (select has_job (if b then o ∷ rest else rest))) n ≡ true
unfolding select contains
later_job n false o rest t e h = h
later_job n true o rest none e h = rw e h
later_job n true o rest (some i) e h = rw e (or_here (i == n) _ h)

abbrev job_of : Option Outbox → Option ℕ
job_of none = none
job_of (some o) = o.job_id

here :
    (x o : Outbox) (xs : List Outbox) (m : ℕ)
    → (x.id == m) ≡ true
    → select_first (λ y. y.id == m) (x ∷ xs) ≡ some o
    → some x ≡ some o
unfolding select_first
here x o xs m e found =
    sym (ap (λ b. if b then some x else select_first (λ y. y.id == m) xs) e) ∙ found

-- The job of a row that is claimed is among those that are enqueued.
job_claimed :
    (ids : List ℕ) (now m n : ℕ) (o : Outbox) (xs : List Outbox)
    → select_first (λ x. x.id == m) xs ≡ some o
    → contains ids m ≡ true
    → o.job_id ≡ some n
    → contains (job_ids (select has_job (updated (λ x. contains ids x.id) (publish now) xs))) n
      ≡ true
unfolding select_first select updated contains
job_claimed ids now m n o [] found hit target = cc
job_claimed ids now m n o (x ∷ xs) found hit target = elim (Bool-cases (x.id == m)) [
  | inl e ↦
      claimed_first n (contains ids x.id) (publish now x) _ (rw (==→eq x.id m e) hit)
        (ap job_of (here x o xs m e found) ∙ target)
  | inr e ↦ later_job n (contains ids x.id) (publish now x) _ x.job_id refl (
      job_claimed ids now m n o xs
        (sym (ap (λ b. if b then some x else select_first (λ y. y.id == m) xs) e) ∙ found) hit
        target)
]

implied : (a b : Bool) → (a ≡ true → b ≡ true) → (not a || b) ≡ true
implied true b h = h refl
implied false b h = refl

module _ (bull : Bullmq) (accepts : Accepts bull) where
  abbrev grown_by : (ℕ → BulkJob) → List ℕ → List QueueEntry → List QueueEntry
  grown_by bulk [] q = q
  grown_by bulk (i ∷ is) q = accepts.grown (map bulk (i ∷ is)) q

  enqueue_jobs-grows :
      (ids : List ℕ) (d : Db) (env : Env)
      → enqueue_jobs bull ids (calm d env)
        ≡ (ok tt, calm d (record env { queue = grown_by job_bulk ids env.queue }))
  unfolding enqueue_jobs add_entries Monad.running
  enqueue_jobs-grows [] d env = refl
  enqueue_jobs-grows (i ∷ is) d env = rw (accepts.adds (map job_bulk (i ∷ is)) env.queue) refl

  enqueue_executions-grows :
      (ids : List ℕ) (d : Db) (env : Env)
      → enqueue_executions bull ids (calm d env)
        ≡ (ok tt, calm d (record env { queue = grown_by execution_bulk ids env.queue }))
  unfolding enqueue_executions add_entries Monad.running
  enqueue_executions-grows [] d env = refl
  enqueue_executions-grows (i ∷ is) d env =
      rw (accepts.adds (map execution_bulk (i ∷ is)) env.queue) refl

  -- The queue after the publication of rows.
  abbrev queue_with : List Outbox → List QueueEntry → List QueueEntry
  queue_with rows q =
      grown_by execution_bulk (execution_ids (select has_execution rows))
        (grown_by job_bulk (job_ids (select has_job rows)) q)

  publish_claimed-grows :
      (rows : List Outbox) (d : Db) (env : Env)
      → publish_claimed bull rows (calm d env)
        ≡ (ok (length rows), calm d (record env { queue = queue_with rows env.queue }))
  unfolding publish_claimed publish_jobs publish_executions Monad.running
  publish_claimed-grows rows d env =
      rw
        (
          enqueue_jobs-grows (job_ids (select has_job rows)) d env,
          enqueue_executions-grows (execution_ids (select has_execution rows)) d
              (record env { queue = grown_by job_bulk (job_ids (select has_job rows)) env.queue }),
        )
        refl

  grown_by-there :
      (n : ℕ) (ids : List ℕ) (q : List QueueEntry)
      → contains ids n ≡ true
      → has_entry (job_queue_id n) (grown_by job_bulk ids q) ≡ true
  unfolding contains
  grown_by-there n [] q h = ground arith
  grown_by-there n (i ∷ is) q h =
      accepts.there (map job_bulk (i ∷ is)) q (job_queue_id n) (bulk_there n (i ∷ is) h)

  grown_by-kept :
      (bulk : ℕ → BulkJob) (ids : List ℕ) (q : List QueueEntry) (id : QueueId)
      → has_entry id q ≡ true
      → has_entry id (grown_by bulk ids q) ≡ true
  grown_by-kept bulk [] q id h = h
  grown_by-kept bulk (i ∷ is) q id h = accepts.kept (map bulk (i ∷ is)) q id h

  abbrev claimed_rows : (ℕ → Bool) → ℕ → Db → Env → List Outbox
  claimed_rows locked limit d env =
      updated (λ x. contains (ids_of (claimable locked limit d.outbox)) x.id) (publish env.now)
        d.outbox

  publication :
      (locked : ℕ → Bool) (limit : ℕ) (d : Db) (env : Env)
      → logged 0
          (Monad.◌>>=◌ (claim_pending_outbox locked limit) (λ rows. publish_claimed bull rows))
          (calm d env)
        ≡ (
          ok (length (claimed_rows locked limit d env)),
          calm
              (record d {
                outbox =
                    update
                      (λ x. contains (ids_of (claimable locked limit d.outbox)) x.id)
                      (publish env.now)
                      d.outbox;
              })
              (record env { queue = queue_with (claimed_rows locked limit d env) env.queue }),
        )
  unfolding logged claim_pending_outbox claim_rows Monad.running
  publication locked limit d env =
      rw
        (publish_claimed-grows (claimed_rows locked limit d env)
          (record d {
            outbox =
                update (λ x. contains (ids_of (claimable locked limit d.outbox)) x.id)
                  (publish env.now) d.outbox;
          })
          env)
        refl

  -- Where no round trip to the database fails and BullMQ takes what is added: if a row of the outbox is claimed
  -- and stands for a job, the queue afterwards holds the entry of that job, and each entry that it held before. The
  -- tick has published as many rows as it has claimed, and the jobs and the executions are as they were.
  pub process_pending_outbox-delivers :
      (locked : ℕ → Bool) (limit retention : ℕ) (d : Db) (env : Env) (o : Outbox) (n : ℕ)
      (id : QueueId)
      → select_first (λ x. x.id == o.id) d.outbox ≡ some o
      → contains (ids_of (claimable locked limit d.outbox)) o.id ≡ true
      → o.job_id ≡ some n
      → let r = process_pending_outbox bull locked limit retention (calm d env) in
        (r.0
          ≡ ok (
              length (
                updated
                  (λ x. contains (ids_of (claimable locked limit d.outbox)) x.id)
                  (publish env.now)
                  d.outbox)))
        × (has_entry (job_queue_id n) r.1.env.queue ≡ true)
        × ((not (has_entry id env.queue) || has_entry id r.1.env.queue) ≡ true)
        × (r.1.db.jobs ≡ d.jobs)
        × (r.1.db.executions ≡ d.executions)
  unfolding process_pending_outbox update_outbox_metrics prune_published_outbox
      delete_published_outbox_before prune_rows Monad.running
  process_pending_outbox-delivers locked limit retention d env o n id there claimed target =
      rw (publication locked limit d env) (
        refl,
        grown_by-kept execution_bulk
            (execution_ids (select has_execution (claimed_rows locked limit d env))) _
            (job_queue_id n)
            (grown_by-there n (job_ids (select has_job (claimed_rows locked limit d env))) env.queue
              (job_claimed (ids_of (claimable locked limit d.outbox)) env.now o.id n o d.outbox
                there claimed target)),
        implied (has_entry id env.queue) _ (λ held.
            grown_by-kept execution_bulk
              (execution_ids (select has_execution (claimed_rows locked limit d env))) _ id
              (grown_by-kept job_bulk (job_ids (select has_job (claimed_rows locked limit d env)))
                env.queue id held)),
        refl,
        refl,
      )
