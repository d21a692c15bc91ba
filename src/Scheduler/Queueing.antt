-- ===== src/Scheduler/Queueing.antt =====
-- That a tick claims what is due: src/modules/scheduler/scheduler.repository.ts where no round trip fails.
use zolt.Prelude.{
  both, select_first-updated, subst, zero, exists-insert, ==→eq, ℕ, suc, ◌≤◌, ◌≡◌, refl, sym, ap,
  ◌∙◌, Bool, true, false, ◌&&◌, ◌==◌, Option, none, some, List, [], ◌∷◌, map, length, take, select,
  select_first, update, updated, exists, insert, contains, Ascends, Bool-cases, inl, inr, arith,
  one_less,
}
use zolt.Schema.{Db, Job, Outbox, outbox_pending}
use zolt.Monad.{◌>>=◌, ◌>>◌, pure, Env, World, ok, calm, running}
use zolt.Outbox.{for_job, pending_row, create_job_outbox, insert_job_outbox}
use zolt.Scheduler.Repository.{
  due_job, queue_job, due_job_ids, claim_jobs, create_job_outboxes, process_job_transaction,
}

take-all : {A : Type 0} (n : ℕ) (xs : List A) → length xs ≤ n → take n xs ≡ xs
take-all zero [] h = refl
take-all (suc n) [] h = refl
take-all zero (x ∷ xs) h = ground arith
take-all (suc n) (x ∷ xs) h = ap (λ ys. x ∷ ys) (take-all n xs (omega (arith, h)))

-- The rows of an update, by their ids.
updated_ids :
    (ids : List ℕ) (now n : ℕ) (xs : List Job)
    → contains (map (λ j. j.id) (updated (λ j. contains ids j.id) (queue_job now) xs)) n
      ≡ (contains ids n && contains (map (λ j. j.id) xs) n)
unfolding updated contains
updated_ids ids now n [] = ground arith
updated_ids ids now n (j ∷ js) = grind (arith, updated_ids ids now n js)

found_there :
    (n : ℕ) (j : Job) (xs : List Job)
    → select_first (λ x. x.id == n) xs ≡ some j
    → contains (map (λ x. x.id) xs) n ≡ true
unfolding select_first contains
found_there n j [] h = cc
found_there n j (x ∷ xs) h = ground (arith, found_there n j xs)

-- A row that is found and passes the test is selected.
found_selected :
    (p : Job → Bool) (n : ℕ) (j : Job) (xs : List Job)
    → select_first (λ x. x.id == n) xs ≡ some j
    → p j ≡ true
    → contains (map (λ x. x.id) (select p xs)) n ≡ true
unfolding select_first contains select
found_selected p n j [] h g = cc
found_selected p n j (x ∷ xs) h g = ground (arith, found_selected p n j xs)

Ascends-lower :
    (lo lo' hi : ℕ) (xs : List Job)
    → lo' ≤ lo
    → Ascends (λ j. j.id) lo hi xs
    → Ascends (λ j. j.id) lo' hi xs
Ascends-lower lo lo' hi [] h a = omega arith
Ascends-lower lo lo' hi (x ∷ xs) h a = (omega (arith, a.0), a.1)

Ascends-updated :
    (ids : List ℕ) (now lo hi : ℕ) (xs : List Job)
    → Ascends (λ j. j.id) lo hi xs
    → Ascends (λ j. j.id) lo hi (updated (λ j. contains ids j.id) (queue_job now) xs)
unfolding updated
Ascends-updated ids now lo hi [] a = a
Ascends-updated ids now lo hi (x ∷ xs) a = elim (Bool-cases (contains ids x.id)) [
  | inl e ↦ rw e (a.0, Ascends-updated ids now (suc x.id) hi xs a.1)
  | inr e ↦ rw e (
      Ascends-lower (suc x.id) lo hi _ (omega (arith, a.0))
        (Ascends-updated ids now (suc x.id) hi xs a.1))
]

exists-insert_other :
    (p : Outbox → Bool) (o : Outbox) (os : List Outbox)
    → p o ≡ false
    → exists p (insert o os) ≡ exists p os
unfolding exists insert
exists-insert_other p o [] h = ground arith
exists-insert_other p o (x ∷ os) h = ground (arith, exists-insert_other p o os h)

exists-insert_there :
    (p : Outbox → Bool) (o : Outbox) (os : List Outbox)
    → exists p os ≡ true
    → exists p (insert o os) ≡ true
unfolding exists insert
exists-insert_there p o [] h = ground arith
exists-insert_there p o (x ∷ os) h = ground (arith, exists-insert_there p o os)

-- The database after the outbox rows of the jobs have been inserted.
unfoldable pub with_outboxes : ℕ → List Job → Db → Db
with_outboxes now [] db = db
with_outboxes now (j ∷ js) db = with_outboxes now js (record db {
  outbox = insert (pending_row (some j.id) none db.next_id now) db.outbox;
  next_id = suc db.next_id;
})

abbrev pub pending_for : ℕ → Outbox → Bool
pending_for n o = for_job n o && outbox_pending o.status

with_outboxes-jobs : (now : ℕ) (js : List Job) (db : Db) → (with_outboxes now js db).jobs ≡ db.jobs
unfolding with_outboxes
with_outboxes-jobs now [] db = refl
with_outboxes-jobs now (j ∷ js) db = with_outboxes-jobs now js _

with_outboxes-keeps :
    (now n : ℕ) (js : List Job) (db : Db)
    → exists (pending_for n) db.outbox ≡ true
    → exists (pending_for n) (with_outboxes now js db).outbox ≡ true
unfolding with_outboxes
with_outboxes-keeps now n [] db h = h
with_outboxes-keeps now n (j ∷ js) db h =
    with_outboxes-keeps now n js _ (exists-insert_there (pending_for n) _ db.outbox h)

with_outboxes-pending :
    (now n : ℕ) (js : List Job) (db : Db)
    → contains (map (λ j. j.id) js) n ≡ true
    → exists (pending_for n) (with_outboxes now js db).outbox ≡ true
unfolding with_outboxes contains
with_outboxes-pending now n [] db h = ground arith
with_outboxes-pending now n (j ∷ js) db h = elim (Bool-cases (j.id == n)) [
  | inl e ↦ with_outboxes-keeps now n js _ (exists-insert (pending_for n) _ db.outbox (rw e refl))
  | inr e ↦ with_outboxes-pending now n js _ (ground arith)
]

Ascends-above :
    (lo hi n : ℕ) (js : List Job)
    → Ascends (λ j. j.id) lo hi js
    → contains (map (λ j. j.id) js) n ≡ true
    → lo ≤ n
unfolding contains
Ascends-above lo hi n [] a h = ground arith
Ascends-above lo hi n (j ∷ js) a h = elim (Bool-cases (j.id == n)) [
  | inl e ↦ omega (arith, a.0, ==→eq j.id n e)
  | inr e ↦ omega (arith, a.0, Ascends-above (suc j.id) hi n js a.1 (ground arith))
]

-- The world in the transaction of a claim.
abbrev inside : Db → Option Db → Env → World
inside db saved env = record { db = db; saved = saved; env = record env { faults = [] } }

created_outbox :
    (n : ℕ) (db : Db) (saved : Option Db) (env : Env)
    → exists (for_job n) db.outbox ≡ false
    → create_job_outbox n (inside db saved env) ≡ (
      ok (pending_row (some n) none db.next_id env.now),
      inside
          (record db {
            outbox = insert (pending_row (some n) none db.next_id env.now) db.outbox;
            next_id = suc db.next_id;
          })
          saved
          env,
    )
unfolding create_job_outbox insert_job_outbox running
created_outbox n db saved env free = rw free refl

created_outboxes :
    (lo hi : ℕ) (js : List Job) (db : Db) (saved : Option Db) (env : Env)
    → Ascends (λ j. j.id) lo hi js
    → ((n : ℕ) → contains (map (λ j. j.id) js) n ≡ true → exists (for_job n) db.outbox ≡ false)
    → create_job_outboxes js (inside db saved env)
      ≡ (ok tt, inside (with_outboxes env.now js db) saved env)
unfolding create_job_outboxes with_outboxes pure ◌>>◌ ◌>>=◌ contains
created_outboxes lo hi [] db saved env a free = refl
created_outboxes lo hi (j ∷ js) db saved env a free =
    rw (created_outbox j.id db saved env (free j.id (ground arith))) (
      created_outboxes (suc j.id) hi js _ saved env a.1 (λ n h.
        exists-insert_other (for_job n) _ db.outbox
          (ground (arith, Ascends-above (suc j.id) hi n js a.1 h))
        ∙ free n (ground (arith, h))))

and_first : (a b : Bool) → (a && b) ≡ true → a ≡ true
and_first a b h = ground arith

module _ (locked : ℕ → Bool) (batch : ℕ) (d : Db) (env : Env) (hi : ℕ) where
  abbrev claimed_ids : List ℕ
  claimed_ids = due_job_ids locked batch env.now d.jobs

  abbrev claimed_rows : List Job
  claimed_rows = updated (λ j. contains claimed_ids j.id) (queue_job env.now) d.jobs

  abbrev claimed_db : Db
  claimed_db = record d {
    jobs = update (λ j. contains claimed_ids j.id) (queue_job env.now) d.jobs;
  }

  -- The claim runs to the end.
  process_job_transaction-runs :
      Ascends (λ j. j.id) 0 hi d.jobs
      → ((n : ℕ) → contains claimed_ids n ≡ true → exists (for_job n) d.outbox ≡ false)
      → process_job_transaction locked batch (calm d env)
        ≡ (ok claimed_rows, calm (with_outboxes env.now claimed_rows claimed_db) env)
  unfolding process_job_transaction claim_jobs running
  process_job_transaction-runs a free =
      rw
        (
          created_outboxes 0 hi claimed_rows claimed_db (some d)
              (record env { connections = suc env.connections })
              (Ascends-updated claimed_ids env.now 0 hi d.jobs a)
              (λ n h. free n (and_first _ _ (sym (updated_ids claimed_ids env.now n d.jobs) ∙ h))),
          one_less env.connections,
        )
        refl

  all_claimed :
      length (select (due_job locked env.now) d.jobs) ≤ batch
      → claimed_ids ≡ map (λ x. x.id) (select (due_job locked env.now) d.jobs)
  unfolding due_job_ids
  all_claimed small = ap (map (λ x. x.id)) (take-all batch _ small)

  due_claimed :
      (j : Job)
      → length (select (due_job locked env.now) d.jobs) ≤ batch
      → select_first (λ x. x.id == j.id) d.jobs ≡ some j
      → due_job locked env.now j ≡ true
      → contains claimed_ids j.id ≡ true
  due_claimed j small there due =
      rw (all_claimed small) (found_selected (due_job locked env.now) j.id j d.jobs there due)

  -- Where no round trip fails, the ids of the jobs grow along the table, no due job has a row in the outbox
  -- and at most a batch of jobs is due, the claim leaves each due job QUEUED with a PENDING row of its own
  -- in the outbox.
  pub process_job_transaction-queues :
      (j : Job)
      → Ascends (λ j. j.id) 0 hi d.jobs
      → ((n : ℕ)
          → contains (map (λ x. x.id) (select (due_job locked env.now) d.jobs)) n ≡ true
          → exists (for_job n) d.outbox ≡ false)
      → length (select (due_job locked env.now) d.jobs) ≤ batch
      → select_first (λ x. x.id == j.id) d.jobs ≡ some j
      → due_job locked env.now j ≡ true
      → (rows : List Job) × (d' : Db) × (process_job_transaction locked batch (calm d env)
          ≡ (ok rows, calm d' env))
        × (select_first (λ x. x.id == j.id) d'.jobs ≡ some (queue_job env.now j))
        × (exists (pending_for j.id) d'.outbox ≡ true)
  process_job_transaction-queues j a free small there due = (
    claimed_rows,
    with_outboxes env.now claimed_rows claimed_db,
    process_job_transaction-runs a
        (λ n h. free n (subst (λ ids. contains ids n ≡ true) (all_claimed small) h)),
    ap (select_first (λ x. x.id == j.id)) (with_outboxes-jobs env.now claimed_rows claimed_db)
        ∙ select_first-updated (λ x. x.id == j.id) (λ x. contains claimed_ids x.id)
            (queue_job env.now) d.jobs (λ x. refl) there (due_claimed j small there due),
    with_outboxes-pending env.now j.id claimed_rows claimed_db (
        updated_ids claimed_ids env.now j.id d.jobs
        ∙ both _ _ (due_claimed j small there due) (found_there j.id j d.jobs there)),
  )
