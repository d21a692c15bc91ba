-- ===== src/Transactions.antt =====
-- The transactions of the repositories src/modules/scheduler and src/modules/jobs, with round trips that fail
-- anywhere.
use zolt.Prelude.{
  true, false, ℕ, suc, Bool, List, [], ◌∷◌, ◌≡◌, refl, Option, none, some, Text, ◌⊎◌, inl, inr, ap,
  sym, subst, update, updated, contains, insert, exists, ◌==◌, if◌then◌else◌,
}
use zolt.Monad.{
  World, M, branch, on_row, commit, pure, rollback, throw, query, ◌>>◌, ◌>>=◌,
  insert_returned_no_row,
}
use zolt.Monad.Atomic.{
  AllOrNothing, transaction-AllOrNothing, Closed, Opened, Yields, query-Opened, continue-Opened,
  continue-Closed, commit-Closed, rollback-read-Closed,
}
use zolt.Jobs.Repository.{
  job_of_key, deduplicate, CreateJobData, CreateJobResult, create_job_with_idempotency, insert_job,
  insert_key, key_taken, key_allowed, new_job, storable, with_job, with_record,
}
use zolt.Jobs.Deduplication.{created}
use zolt.Scheduler.Queueing.{with_outboxes}
use zolt.Scheduler.Repository.{
  process_job_transaction, create_job_outboxes, claim_jobs, due_job_ids, queue_job,
}
use zolt.Outbox.{insert_job_outbox, create_job_outbox, pending_row, for_job}
use zolt.Schema.{Job, Db}

if-Yields :
    {A : Type 0} (P : A → Db → Type 0) (b : Bool) (a : A) (x : Db)
    → P a x
    → Yields P (if b then some (a, x) else none)
if-Yields P true a x h = h
if-Yields P false a x h = tt

if_not-Yields :
    {A : Type 0} (P : A → Db → Type 0) (b : Bool) (a : A) (x : Db)
    → P a x
    → Yields P (if b then none else some (a, x))
if_not-Yields P true a x h = tt
if_not-Yields P false a x h = h

-- The database with the outbox row of one more job.
abbrev with_outbox : ℕ → Job → Db → Db
with_outbox now j db = record db {
  outbox = insert (pending_row (some j.id) none db.next_id now) db.outbox;
  next_id = suc db.next_id;
}

insert_job_outbox-Yields :
    (n : ℕ) (j : Job) (x y : Db)
    → x ≡ y
    → Yields (λ _ z. z ≡ with_outbox n j y) (insert_job_outbox j.id n x)
unfolding insert_job_outbox
insert_job_outbox-Yields n j x y h =
    if_not-Yields (λ _ z. z ≡ with_outbox n j y) (exists (for_job j.id) x.outbox) _ _
      (ap (with_outbox n j) h)

create_job_outboxes-Opened :
    (d : Db) (n : ℕ) (js : List Job) (x : Db) (w : World)
    → w.saved ≡ some d
    → w.env.now ≡ n
    → w.db ≡ x
    → Opened d n (λ _ y. y ≡ with_outboxes n js x) (create_job_outboxes js w)
unfolding create_job_outboxes create_job_outbox with_outboxes pure ◌>>◌ ◌>>=◌
create_job_outboxes-Opened d n [] x w h t e = (h, t, e)
create_job_outboxes-Opened d n (j ∷ js) x w h t e =
    continue-Opened (λ _ y. y ≡ with_outbox n j x) d n _ _ _
      (query-Opened (λ _ y. y ≡ with_outbox n j x) d n (insert_job_outbox j.id) w h t
        (insert_job_outbox-Yields n j w.db x e))
      (λ _ u g s f. create_job_outboxes-Opened d n js (with_outbox n j x) u g s f)

-- The claim has given back the jobs that it has made QUEUED, of those that were due at the time `now`, and the
-- database has them QUEUED, with an outbox row for each.
abbrev pub Queued : (ℕ → Bool) → ℕ → ℕ → Db → List Job → Db → Type 0
Queued locked batch now d rows x =
    let ids = due_job_ids locked batch now d.jobs in
    (rows ≡ updated (λ j. contains ids j.id) (queue_job now) d.jobs)
    × (x
        ≡ with_outboxes now rows
            (record d { jobs = update (λ j. contains ids j.id) (queue_job now) d.jobs }))

-- What the UPDATE of the claim leaves.
abbrev Claimed : (ℕ → Bool) → ℕ → ℕ → Db → List Job → Db → Type 0
Claimed locked batch now d rows x =
    let ids = due_job_ids locked batch now d.jobs in
    (rows ≡ updated (λ j. contains ids j.id) (queue_job now) d.jobs)
    × (x ≡ record d { jobs = update (λ j. contains ids j.id) (queue_job now) d.jobs })

claim_jobs-Yields :
    (locked : ℕ → Bool) (batch n : ℕ) (x d : Db)
    → x ≡ d
    → Yields (Claimed locked batch n d) (claim_jobs locked batch n x)
unfolding claim_jobs
claim_jobs-Yields locked batch n x d h =
    subst (λ y. Yields (Claimed locked batch n d) (claim_jobs locked batch n y)) (sym h)
      (refl, refl)

-- Claiming the due jobs and writing their outbox rows is one transaction, whatever round trips fail, from where no
-- transaction is open. It leaves none open. If it gives back jobs, these are the claimed ones, and they are QUEUED in
-- the database, with their outbox rows. If it throws, the database is what it was, or, as the reply to a COMMIT
-- may be lost, has all of this.
pub process_job_transaction-AllOrNothing :
    (locked : ℕ → Bool) (batch : ℕ) (w : World)
    → w.saved ≡ none
    → AllOrNothing w.db
        (Queued locked batch w.env.now w.db)
        (process_job_transaction locked batch w)
unfolding process_job_transaction ◌>>=◌ ◌>>◌
process_job_transaction-AllOrNothing locked batch w quiet =
    let n = w.env.now in
    let Done = Queued locked batch n w.db in
    transaction-AllOrNothing Done _ w quiet (λ u h t e.
      continue-Closed (Claimed locked batch n w.db) w.db n Done _ _
        (query-Opened (Claimed locked batch n w.db) w.db n (claim_jobs locked batch) u h t
          (claim_jobs-Yields locked batch n u.db w.db e))
        (λ rows v g s c.
          continue-Closed (λ _ y. y ≡ with_outboxes n rows _) w.db n Done _ _
            (create_job_outboxes-Opened w.db n rows _ v g s c.1)
            (λ _ z k r f. commit-Closed Done w.db rows z k (c.0, f))))

-- The job is created with its record, or the key is taken and names the job.
abbrev pub Submitted : CreateJobData → Text → ℕ → Db → CreateJobResult → Db → Type 0
Submitted c k now d r x =
    ((key_taken k d ≡ false)
      × (r ≡ record { job = some (new_job c d.next_id now); deduplicated = false })
      × (x ≡ created c k d now))
    ⊎ ((key_taken k d ≡ true)
        × (r ≡ record { job = job_of_key k d; deduplicated = true })
        × (x ≡ d))

-- After the first INSERT.
abbrev Inserted : CreateJobData → ℕ → Db → Option Job → Db → Type 0
Inserted c now d o x = (o ≡ some (new_job c d.next_id now)) × (x ≡ with_job c now d)

insert_job-Yields :
    (c : CreateJobData) (n : ℕ) (x d : Db) → x ≡ d → Yields (Inserted c n d) (insert_job c n x)
unfolding insert_job
insert_job-Yields c n x d h =
    subst (λ y. Yields (Inserted c n d) (insert_job c n y)) (sym h)
      (if-Yields (Inserted c n d) (storable c) _ _ (refl, refl))

-- After the second one.
abbrev Counted : CreateJobData → Text → ℕ → Db → ℕ → Db → Type 0
Counted c k now d m x =
    ((key_taken k d ≡ false) × (m ≡ 1) × (x ≡ created c k d now))
    ⊎ ((key_taken k d ≡ true) × (m ≡ 0))

key_taken_case :
    (c : CreateJobData) (k : Text) (n : ℕ) (d : Db) (b : Bool)
    → key_taken k d ≡ b
    → Yields (Counted c k n d) (
        if b
        then some (0, with_job c n d)
        else if key_allowed d.next_id k (with_job c n d)
        then some (1, with_record d.next_id k n (with_job c n d))
        else none)
key_taken_case c k n d true h = inr (h, refl)
key_taken_case c k n d false h =
    if-Yields (Counted c k n d) (key_allowed d.next_id k (with_job c n d)) _ _ (inl (h, refl, refl))

insert_key-Yields :
    (c : CreateJobData) (k : Text) (n : ℕ) (x d : Db)
    → x ≡ with_job c n d
    → Yields (Counted c k n d) (insert_key d.next_id k n x)
unfolding insert_key
insert_key-Yields c k n x d h =
    subst (λ y. Yields (Counted c k n d) (insert_key d.next_id k n y)) (sym h)
      (key_taken_case c k n d (key_taken k d) refl)

-- The end of the transaction, by the row count of the second INSERT.
after_count-Closed :
    (c : CreateJobData) (k : Text) (n : ℕ) (d : Db) (m : ℕ) (w : World)
    → w.saved ≡ some d
    → Counted c k n d m w.db
    → Closed d (Submitted c k n d) (
        branch
          (m == 0)
          (deduplicate k)
          (commit >> pure (record { job = some (new_job c d.next_id n); deduplicated = false }))
          w)
unfolding branch
after_count-Closed c k n d m w h (inl p) =
    rw p.1 (commit-Closed (Submitted c k n d) d _ w h (inl (p.0, refl, p.2)))
after_count-Closed c k n d m w h (inr p) = rw p.1 (
    rollback-read-Closed (Submitted c k n d) d (λ now db. job_of_key k db)
      (λ existing. record { job = existing; deduplicated = true }) w h (inr (p.0, refl, refl)))

abbrev after_insert : Text → Option Job → M CreateJobResult
after_insert k inserted = on_row inserted (rollback >> throw insert_returned_no_row) λ job. do
  key_count ← query (insert_key job.id k)
  branch (key_count == 0) (deduplicate k)
      (do commit; pure (record { job = some job; deduplicated = false }))

after_insert-Closed :
    (c : CreateJobData) (k : Text) (n : ℕ) (d : Db) (o : Option Job) (w : World)
    → w.saved ≡ some d
    → w.env.now ≡ n
    → Inserted c n d o w.db
    → Closed d (Submitted c k n d) (after_insert k o w)
unfolding on_row ◌>>=◌
after_insert-Closed c k n d o w h t p = rw p.0 (
    continue-Closed (Counted c k n d) d n (Submitted c k n d) _ _
      (query-Opened (Counted c k n d) d n (insert_key d.next_id k) w h t
        (insert_key-Yields c k n w.db d p.1))
      (λ m u g s q. after_count-Closed c k n d m u g q))

-- Creating a job with its idempotency record is one transaction, whatever round trips fail, from where no
-- transaction is open. It leaves none open. If it gives an answer, the key was free, and the database has the job
-- and its record; or the key was taken, the answer is the job of its record, and the database is what it was. If it
-- throws, the database is what it was, or, as the reply to a COMMIT may be lost, has the job and its record.
pub create_job_with_idempotency-AllOrNothing :
    (c : CreateJobData) (k : Text) (w : World)
    → w.saved ≡ none
    → AllOrNothing w.db (Submitted c k w.env.now w.db) (create_job_with_idempotency c k w)
unfolding create_job_with_idempotency ◌>>=◌
create_job_with_idempotency-AllOrNothing c k w quiet =
    let n = w.env.now in
    let Done = Submitted c k n w.db in
    transaction-AllOrNothing Done _ w quiet (λ u h t e.
      continue-Closed (Inserted c n w.db) w.db n Done _ _
        (query-Opened (Inserted c n w.db) w.db n (insert_job c) u h t
          (insert_job-Yields c n u.db w.db e))
        (λ o v g s p. after_insert-Closed c k n w.db o v g s p))
