-- ===== src/Jobs/Submission.antt =====
-- A submission through createJobService of src/modules/jobs/jobs.service.ts.
use zolt.Prelude.{
  ℕ, ◌≡◌, refl, Bool, true, false, Option, none, some, Text, ltb, length, ◌||◌, arith,
}
use zolt.Schema.{Db, Job, immediate, once, ScheduleType}
use zolt.Monad.{calm, Env, ok, running, World}
use zolt.Monad
use zolt.Metrics.{record_metric}
use zolt.Jobs.Deduplication.{create-fresh, create-taken, created}
use zolt.Jobs.Repository.{storable, new_job, job_of_key, key_taken, CreateJobData, key_allowed}
use zolt.Jobs.Service.{
  trim, resolve_idempotency_key, resolve_run_at, create_job_service, CreateJobInput,
}

-- The data of the job that an input describes, at the time it is due.
abbrev pub data_of : CreateJobInput → Option ℕ → CreateJobData
data_of input at = record {
  title = input.title;
  type = input.type;
  schedule_type = input.schedule_type;
  payload = input.payload;
  run_at = at;
  max_attempts = input.max_attempts;
}

abbrev pub due_at : ScheduleType → Option (Option ℕ) → ℕ → Option ℕ
due_at immediate run_at now = some now
due_at once none now = none
due_at once (some t) now = t

-- A time is given, where the job is for ONCE.
abbrev pub has_time : ScheduleType → Option (Option ℕ) → Bool
has_time immediate run_at = true
has_time once none = false
has_time once (some t) = true

resolve_run_at-due_at :
    (s : ScheduleType) (t : Option (Option ℕ)) (w : World)
    → has_time s t ≡ true
    → resolve_run_at s t w ≡ (ok (due_at s t w.env.now), w)
unfolding resolve_run_at running
resolve_run_at-due_at immediate t w h = refl
resolve_run_at-due_at once none w h = cc
resolve_run_at-due_at once (some t) w h = refl

pub allowed_length :
    (id : ℕ) (k : Text) (d : Db)
    → key_allowed id k d ≡ true
    → (ltb (length k) 1 || ltb 200 (length k)) ≡ false
allowed_length id k d h = ground arith

abbrev pub new_env : Job → Env → Env
new_env j env = record_metric (Monad.job_created j.type j.schedule_type) env

pub create_job_service-fresh :
    (uuid : Text) (input : CreateJobInput) (key : Text) (d : Db) (env : Env)
    → has_time input.schedule_type input.run_at ≡ true
    → storable (data_of input (due_at input.schedule_type input.run_at env.now)) ≡ true
    → key_taken (trim key) d ≡ false
    → key_allowed d.next_id (trim key) d ≡ true
    → let c = data_of input (due_at input.schedule_type input.run_at env.now) in
      let j = new_job c d.next_id env.now in
      create_job_service uuid input (some key) (calm d env) ≡ (
        ok (record { job = j; deduplicated = false }),
        calm (created c (trim key) d env.now) (new_env j env),
      )
unfolding create_job_service resolve_idempotency_key running
create_job_service-fresh uuid input key d env timely fits fresh allowed =
    rw
      (
        resolve_run_at-due_at input.schedule_type input.run_at (calm d env) timely,
        allowed_length d.next_id (trim key) d allowed,
        create-fresh (data_of input (due_at input.schedule_type input.run_at env.now)) (trim key) d
            env fits fresh allowed,
      )
      refl

pub create_job_service-taken :
    (uuid : Text) (input : CreateJobInput) (key : Text) (d : Db) (env : Env) {j : Job}
    → has_time input.schedule_type input.run_at ≡ true
    → storable (data_of input (due_at input.schedule_type input.run_at env.now)) ≡ true
    → (ltb (length (trim key)) 1 || ltb 200 (length (trim key))) ≡ false
    → key_taken (trim key) d ≡ true
    → job_of_key (trim key) d ≡ some j
    → create_job_service uuid input (some key) (calm d env)
      ≡ (ok (record { job = j; deduplicated = true }), calm d env)
unfolding create_job_service resolve_idempotency_key running
create_job_service-taken uuid input key d env timely fits short taken owner =
    rw
      (
        resolve_run_at-due_at input.schedule_type input.run_at (calm d env) timely,
        short,
        create-taken (data_of input (due_at input.schedule_type input.run_at env.now)) (trim key) d
            env fits taken,
        owner,
      )
      refl
