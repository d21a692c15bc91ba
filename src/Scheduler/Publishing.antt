-- ===== src/Scheduler/Publishing.antt =====
-- What becomes of the outbox rows that a tick claims, if BullMQ takes nothing (processPendingOutbox of
-- src/modules/scheduler/scheduler.service.ts).
use zolt.Prelude.{
  ℕ, ◌≡◌, refl, Bool, true, ◌&&◌, Option, none, some, List, [], ◌∷◌, ◌++◌, select, update, updated,
  delete, contains, AllRows, is_some, map,
}
use zolt.Schema.{Db, Outbox, outbox_published}
use zolt.Monad.{World, queue_error, err, QueueEntry, calm, Env, ok}
use zolt.Monad
use zolt.Queue.{
  job_bulk, execution_bulk, add_entries, enqueue_jobs, enqueue_executions, Bullmq, AddResult,
  BulkJob,
}
use zolt.Outbox.{
  prune_rows, delete_published_outbox_before, claim_rows, claim_pending_outbox, reset_rows,
  reset_outbox_to_pending, ids_of, publish, unpublish, claimable, prunable,
}
use zolt.Scheduler.Service.{
  prune_published_outbox, update_outbox_metrics, logged, publish_jobs, publish_executions, has_job,
  has_execution, job_ids, execution_ids, process_pending_outbox, publish_claimed,
}
use zolt.Scheduler.Claimed.{
  agreed, taken_back, untargeted, claimed_targets, select-head, no_hits, has_target,
}

-- The rows after the reset of those with the ids.
abbrev reset_to : List ℕ → ℕ → Db → Db
reset_to ids now d = record d {
  outbox = update (λ o. contains ids o.id && outbox_published o.status) (unpublish now) d.outbox;
}

-- The outbox after a tick's publication: the claimed rows are PENDING.
abbrev pub claimed_ids_of : (ℕ → Bool) → ℕ → Db → List ℕ
claimed_ids_of locked limit d = ids_of (claimable locked limit d.outbox)

abbrev pub kept_pending : (ℕ → Bool) → ℕ → Db → ℕ → List Outbox
kept_pending locked limit d now =
    update (λ o. contains (claimed_ids_of locked limit d) o.id) (unpublish now) d.outbox

abbrev claimed_rows : (ℕ → Bool) → ℕ → Db → ℕ → List Outbox
claimed_rows locked limit d now =
    updated (λ o. contains (claimed_ids_of locked limit d) o.id) (publish now) d.outbox

abbrev claimed_db : (ℕ → Bool) → ℕ → Db → ℕ → Db
claimed_db locked limit d now = record d {
  outbox = update (λ o. contains (claimed_ids_of locked limit d) o.id) (publish now) d.outbox;
}

module _ (bull : Bullmq)
    (refuses : (bs : List BulkJob) (q : List QueueEntry)
      → bull.add_bulk bs q ≡ AddResult.rejected q) where
  jobs_refused :
      (o : Outbox) (os es : List Outbox) (b : Option ℕ) (d : Db) (env : Env)
      → o.job_id ≡ b
      → is_some b ≡ true
      → publish_jobs bull (o ∷ os) es (calm d env)
        ≡ (err queue_error, calm (reset_to (ids_of (o ∷ os) ++ ids_of es) env.now d) env)
  unfolding publish_jobs enqueue_jobs add_entries reset_outbox_to_pending reset_rows Monad.running
  jobs_refused o os es none d env h g = cc
  jobs_refused o os es (some i) d env h g =
      rw (h, refuses (map job_bulk (i ∷ job_ids os)) env.queue) refl

  executions_refused :
      (o : Outbox) (os : List Outbox) (b : Option ℕ) (d : Db) (env : Env)
      → o.execution_id ≡ b
      → is_some b ≡ true
      → publish_executions bull (o ∷ os) (calm d env)
        ≡ (err queue_error, calm (reset_to (ids_of (o ∷ os)) env.now d) env)
  unfolding publish_executions enqueue_executions add_entries reset_outbox_to_pending reset_rows
      Monad.running
  executions_refused o os none d env h g = cc
  executions_refused o os (some i) d env h g =
      rw (h, refuses (map execution_bulk (i ∷ execution_ids os)) env.queue) refl

  no_jobs : (es : List Outbox) (w : World) → publish_jobs bull [] es w ≡ (ok tt, w)
  unfolding publish_jobs enqueue_jobs Monad.running
  no_jobs es w = refl

  refused_at :
      (js es rows : List Outbox) (r : Outbox) (rs : List Outbox) (d : Db) (env : Env)
      → select has_job rows ≡ js
      → select has_execution rows ≡ es
      → rows ≡ r ∷ rs
      → AllRows (λ o. has_target o ≡ true) rows
      → publish_claimed bull rows (calm d env)
        ≡ (err queue_error, calm (reset_to (ids_of js ++ ids_of es) env.now d) env)
  unfolding publish_claimed Monad.running
  refused_at (o ∷ os) es rows r rs d env h g some_rows t =
      rw (h, g, jobs_refused o os es o.job_id d env refl (select-head has_job o os rows h)) refl
  refused_at [] (o ∷ os) rows r rs d env h g some_rows t =
      rw
        (
          h,
          g,
          no_jobs (o ∷ os) (calm d env),
          executions_refused o os o.execution_id d env refl (select-head has_execution o os rows g),
        )
        refl
  refused_at [] [] rows r rs d env h g some_rows t = let no_rows = untargeted rows h g t in cc

  nothing_claimed : (d : Db) (env : Env) → publish_claimed bull [] (calm d env) ≡ (ok 0, calm d env)
  unfolding publish_claimed publish_jobs publish_executions enqueue_jobs enqueue_executions select
      Monad.running
  nothing_claimed d env = refl

  published_case :
      (rows : List Outbox) (locked : ℕ → Bool) (limit : ℕ) (d : Db) (env : Env)
      → claimed_rows locked limit d env.now ≡ rows
      → AllRows (λ o. has_target o ≡ true) d.outbox
      → logged 0
          (publish_claimed bull (claimed_rows locked limit d env.now))
          (calm (claimed_db locked limit d env.now) env)
        ≡ (ok 0, calm (record d { outbox = kept_pending locked limit d env.now }) env)
  unfolding logged Monad.try_catch Monad.pure
  published_case [] locked limit d env h t =
      rw
        (
          h,
          nothing_claimed (claimed_db locked limit d env.now) env,
          no_hits (claimed_ids_of locked limit d) (publish env.now) (unpublish env.now) d.outbox h,
        )
        refl
  published_case (r ∷ rs) locked limit d env h t =
      let ids = claimed_ids_of locked limit d in
      rw
        (
          refused_at (select has_job (claimed_rows locked limit d env.now))
              (select has_execution (claimed_rows locked limit d env.now))
              (claimed_rows locked limit d env.now) r rs (claimed_db locked limit d env.now) env
              refl refl h (claimed_targets ids env.now d.outbox t),
          taken_back ids
              (ids_of (select has_job (claimed_rows locked limit d env.now))
                ++ ids_of (select has_execution (claimed_rows locked limit d env.now)))
              env.now d.outbox (agreed ids env.now d.outbox t),
        )
        refl

  publication :
      (locked : ℕ → Bool) (limit : ℕ) (d : Db) (env : Env)
      → AllRows (λ o. has_target o ≡ true) d.outbox
      → logged 0
          (Monad.◌>>=◌ (claim_pending_outbox locked limit) (λ rows. publish_claimed bull rows))
          (calm d env)
        ≡ (ok 0, calm (record d { outbox = kept_pending locked limit d env.now }) env)
  unfolding logged claim_pending_outbox claim_rows Monad.running
  publication locked limit d env t =
      published_case (claimed_rows locked limit d env.now) locked limit d env refl t

  -- Where no round trip to the database fails: if every row of the outbox has a job or an execution and
  -- BullMQ refuses whatever is added, the tick publishes 0 rows, the rows that it has claimed are PENDING
  -- again and the others as they were, except that PUBLISHED rows past the retention are deleted; the jobs
  -- and the executions are as they were.
  pub process_pending_outbox-keeps :
      (locked : ℕ → Bool) (limit retention : ℕ) (d : Db) (env : Env)
      → AllRows (λ o. has_target o ≡ true) d.outbox
      → let r = process_pending_outbox bull locked limit retention (calm d env) in
        (r.0 ≡ ok 0)
        × (r.1.db.outbox
            ≡ delete (prunable retention env.now) (kept_pending locked limit d env.now))
        × (r.1.db.jobs ≡ d.jobs)
        × (r.1.db.executions ≡ d.executions)
  unfolding process_pending_outbox update_outbox_metrics prune_published_outbox
      delete_published_outbox_before prune_rows Monad.running
  process_pending_outbox-keeps locked limit retention d env t =
      rw (publication locked limit d env t) (refl, refl, refl, refl)
