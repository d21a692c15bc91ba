-- ===== src/Jobs/Deduplication.antt =====
-- What a second submission with the key of a first one meets, in createJobWithIdempotency of
-- src/modules/jobs/jobs.repository.ts.
use zolt.Prelude.{
  one_less, none-exists, exists-insert, same_number, ◌∙◌, ap, text_eq_refl, ◌∙◌,
  select_first-insert, ℕ, suc, ◌≡◌, refl, true, false, none, some, Text, insert, ◌==◌,
}
use zolt.Schema.{Db}
use zolt.Monad.{ok, calm, running, Env}
use zolt.Jobs.Repository.{
  storable, new_record, has_key, get_job_by_id, CreateJobData, create_job_with_idempotency,
  insert_job, insert_key, key_taken, job_of_key, new_job, with_record, key_allowed,
}

-- A key that is taken: the job of its record is the answer, and nothing is written.
pub create-taken :
    (c : CreateJobData) (k : Text) (d : Db) (env : Env)
    → storable c ≡ true
    → key_taken k d ≡ true
    → create_job_with_idempotency c k (calm d env)
      ≡ (ok (record { job = job_of_key k d; deduplicated = true }), calm d env)
unfolding create_job_with_idempotency insert_job insert_key running
create-taken c k d env fits taken = rw (fits, taken, one_less env.connections)

abbrev pub created : CreateJobData → Text → Db → ℕ → Db
created c k d now =
    with_record d.next_id k now
      (record d { jobs = insert (new_job c d.next_id now) d.jobs; next_id = suc d.next_id })

-- A fresh key.
pub create-fresh :
    (c : CreateJobData) (k : Text) (d : Db) (env : Env)
    → storable c ≡ true
    → key_taken k d ≡ false
    → key_allowed d.next_id k d ≡ true
    → create_job_with_idempotency c k (calm d env) ≡ (
      ok (record { job = some (new_job c d.next_id env.now); deduplicated = false }),
      calm (created c k d env.now) env,
    )
unfolding create_job_with_idempotency insert_job insert_key running
create-fresh c k d env fits fresh allowed = rw (fits, fresh, allowed, one_less env.connections) refl

-- The record of the key and its job are found again.
pub job_of_key-created :
    (c : CreateJobData) (k : Text) (d : Db) (now : ℕ)
    → key_taken k d ≡ false
    → get_job_by_id d.next_id d ≡ none
    → job_of_key k (created c k d now) ≡ some (new_job c d.next_id now)
unfolding job_of_key get_job_by_id
job_of_key-created c k d now fresh unused =
    rw
      (select_first-insert (has_key k) (new_record d.next_id k (suc d.next_id) now)
        d.idempotency_records (none-exists (has_key k) d.idempotency_records fresh)
        (text_eq_refl k))
      (select_first-insert (λ j. j.id == d.next_id) (new_job c d.next_id now) d.jobs unused
        (same_number d.next_id))

-- Where no round trip fails: if the columns take the job (its title fits varchar(255), its run_at is a date that
-- PostgreSQL stores, and its max_attempts is at most 2147483647), its key is fresh and has 1 to 200 characters,
-- and no job and no record has the number of the next row as its job id, then the job is stored, SCHEDULED. A
-- second submission with that key, of any job that the columns take, is answered with the job of the first one,
-- and writes nothing.
pub create_job_with_idempotency-twice :
    (c c' : CreateJobData) (k : Text) (d : Db) (env : Env)
    → storable c ≡ true
    → storable c' ≡ true
    → key_taken k d ≡ false
    → key_allowed d.next_id k d ≡ true
    → get_job_by_id d.next_id d ≡ none
    → let j = new_job c d.next_id env.now in
      let w = (create_job_with_idempotency c k (calm d env)).1 in
      ((create_job_with_idempotency c k (calm d env)).0
        ≡ ok (record { job = some j; deduplicated = false }))
      × (create_job_with_idempotency c' k w
          ≡ (ok (record { job = some j; deduplicated = true }), w))
create_job_with_idempotency-twice c c' k d env fits fits' fresh allowed unused =
    rw (create-fresh c k d env fits fresh allowed) (
      refl,
      create-taken c' k (created c k d env.now) env fits' (
            exists-insert (has_key k) (new_record d.next_id k (suc d.next_id) env.now)
              d.idempotency_records (text_eq_refl k))
          ∙ ap
              (λ o.
                (ok (record { job = o; deduplicated = true }), calm (created c k d env.now) env))
              (job_of_key-created c k d env.now fresh unused),
    )
