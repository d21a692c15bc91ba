-- ===== src/Jobs/Service.antt =====
-- src/modules/jobs/jobs.service.ts and the POST handler of jobs.controller.ts. `uuid` stands for the
-- key that crypto.randomUUID() makes up.
use zolt.Prelude.{
  ℕ, Bool, true, false, not, ◌||◌, ◌&&◌, Option, none, some, [], ◌∷◌, Text, ltb, leb, ◌==◌,
  if◌then◌else◌, length,
}
use zolt.Schema.{Job, JobType, ScheduleType, immediate, once, JobStatus, job_scheduled}
use zolt.Monad.{
  M, pure, throw, ◌>>=◌, ◌>>◌, on_row, branch, get_env, set_env, read, app_error, error_finding_job,
  cannot_be_cancelled, could_not_be_cancelled, error_creating_job, run_at_required, key_length,
  job_created,
}
use zolt.Http.Reply.{Reply, reply, created_body}
use zolt.Metrics.{record_metric, count_final}
use zolt.Jobs.Repository.{create_job_with_idempotency, get_job_by_id, cancel_job_status}

-- The characters that String.prototype.trim takes away.
abbrev is_blank : ℕ → Bool
is_blank c =
    (c == 32 || leb 9 c && leb c 13)
    || (c == 160 || c == 5760 || leb 8192 c && leb c 8202)
    || (c == 8232 || c == 8233 || c == 8239 || c == 8287 || c == 12288 || c == 65279)

unfoldable pub trim_start : Text → Text
trim_start [] = []
trim_start (c ∷ cs) = let rest = trim_start cs in if is_blank c then rest else c ∷ cs

abbrev is_empty : Text → Bool
is_empty [] = true
is_empty (_ ∷ _) = false

unfoldable pub trim_end : Text → Text
trim_end [] = []
trim_end (c ∷ cs) = let rest = trim_end cs in if is_blank c && is_empty rest then [] else c ∷ rest

unfoldable pub trim : Text → Text
unfolding trim_start trim_end
trim s = trim_end (trim_start s)

unfoldable pub resolve_idempotency_key : Text → Option Text → M Text
resolve_idempotency_key uuid none = pure uuid
resolve_idempotency_key uuid (some key) =
    branch (ltb (length (trim key)) 1 || ltb 200 (length (trim key)))
      (throw (app_error key_length 400)) (pure (trim key))

-- The validated body; run_at is a Date, where the body has one, and `some none` one that is invalid or out of the
-- range of PostgreSQL.
pub record CreateJobInput : Type 0 where
  pub title : Text
  pub type : JobType
  pub schedule_type : ScheduleType
  pub payload : Option Text
  pub run_at : Option (Option ℕ)
  pub max_attempts : ℕ

unfoldable pub resolve_run_at : ScheduleType → Option (Option ℕ) → M (Option ℕ)
resolve_run_at immediate run_at = get_env (λ e. some e.now)
resolve_run_at once run_at = on_row run_at (throw (app_error run_at_required 400)) (λ t. pure t)

pub record Created : Type 0 where
  pub job : Job
  pub deduplicated : Bool

unfoldable pub create_job_service : Text → CreateJobInput → Option Text → M Created
unfolding resolve_run_at resolve_idempotency_key
create_job_service uuid input key = do
  run_at ← resolve_run_at input.schedule_type input.run_at
  idempotency_key ← resolve_idempotency_key uuid key
  result ←
      create_job_with_idempotency
        (record {
          title = input.title;
          type = input.type;
          schedule_type = input.schedule_type;
          payload = input.payload;
          run_at = run_at;
          max_attempts = input.max_attempts;
        })
        idempotency_key
  on_row result.job (throw (app_error error_creating_job 500)) λ job. do
    branch result.deduplicated (pure tt)
        (set_env (record_metric (job_created job.type job.schedule_type)))
    pure (record { job = job; deduplicated = result.deduplicated })

unfoldable pub get_job_by_id_service : ℕ → M Job
get_job_by_id_service id = do
  row ← read (λ now db. get_job_by_id id db)
  on_row row (throw (app_error error_finding_job 404)) (λ job. pure job)

unfoldable pub cancel_job_service : ℕ → M Job
cancel_job_service id = do
  row ← read (λ now db. get_job_by_id id db)
  on_row row (throw (app_error error_finding_job 404)) λ job.
      branch (not (job_scheduled job.status)) (throw (app_error cannot_be_cancelled 409)) (do
        cancelled ← cancel_job_status id
        on_row cancelled (throw (app_error could_not_be_cancelled 409))
            λ c. do set_env (count_final (some c) c JobStatus.cancelled); pure c)

-- The reply to POST /jobs
abbrev pub created_reply : Created → Reply
created_reply c = reply (if c.deduplicated then 200 else 201) (created_body c.deduplicated c.job)

unfoldable pub create_job_controller : Text → CreateJobInput → Option Text → M Reply
unfolding create_job_service
create_job_controller uuid input key = do
  created ← create_job_service uuid input key
  pure (created_reply created)
