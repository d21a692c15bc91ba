-- ===== src/Http/Routes.antt =====
-- The routes of src/modules/jobs/jobs.routes.ts, each the check of the request and then the handler. Express,
-- which is not under src/, calls the handlers of a route in turn; what it does with next(error) is the
-- parameter `next_error`. `uuid` stands for the key that crypto.randomUUID() makes up.
use zolt.Prelude.{ℕ, Option, none, some, [], ◌∷◌, Text}
use zolt.Monad.{M}
use zolt.Jobs.Listing.{GetJobsQuery}
use zolt.Jobs.Service.{CreateJobInput, create_job_controller}
use zolt.Http.Reply.{Reply}
use zolt.Http.Errors.{HttpError}
use zolt.Http.Middleware.{validate_request, async_handler}
use zolt.Http.JobSchema.{Zod, JobFields, create_job_schema, get_jobs_schema, job_id_schema}
use zolt.Http.Controllers.{
  get_job_by_id_controller, get_jobs_controller, cancel_job_controller,
  get_job_executions_controller,
}

-- `date` is the constructor of Date on a text, with `none` for an Invalid Date and for one that PostgreSQL has no
-- timestamp for, and `query_later` what a later reading of req.query gives,
-- once the middleware has assigned the checked query to the object of its own reading.
pub record Express (Raw : Type 0) : Type 0 where
  pub date : Text → Option ℕ
  pub query_later : Raw → GetJobsQuery → GetJobsQuery

-- new Date(data.run_at), where run_at is truthy
abbrev pub date_of : (Text → Option ℕ) → Option Text → Option (Option ℕ)
date_of date none = none
date_of date (some []) = none
date_of date (some (c ∷ cs)) = some (date (c ∷ cs))

abbrev pub input_of : (Text → Option ℕ) → JobFields → CreateJobInput
input_of date f = record {
  title = f.title;
  type = f.type;
  schedule_type = f.schedule_type;
  payload = f.payload;
  run_at = date_of date f.run_at;
  max_attempts = f.max_attempts;
}

-- A request to one of the five routes: POST /jobs with its body and the header of the key, and GET /jobs/:id,
-- GET /jobs, POST /jobs/:id/cancel and GET /jobs/:id/executions.
pub data Request (Raw : Type 0) : Type 0 where
  submit : Text → Raw → Option Text → Request Raw
  show cancel executions_of : Text → Request Raw
  list_all : Raw → Request Raw

module _ {Raw : Type 0} (zod : Zod Raw) (express : Express Raw)
    (next_error : HttpError → M Reply) where
  unfoldable pub post_jobs : Text → Raw → Option Text → M Reply
  post_jobs uuid body key =
      validate_request (create_job_schema zod body)
        (λ f. async_handler (create_job_controller uuid (input_of express.date f) key) next_error)
        next_error

  unfoldable pub get_jobs_by_id : Text → M Reply
  get_jobs_by_id id =
      validate_request (job_id_schema zod id)
        (λ n. async_handler (get_job_by_id_controller n) next_error) next_error

  unfoldable pub get_jobs_list : Raw → M Reply
  get_jobs_list query =
      validate_request (get_jobs_schema zod query)
        (λ q. async_handler (get_jobs_controller (express.query_later query q)) next_error)
        next_error

  unfoldable pub post_jobs_cancel : Text → M Reply
  post_jobs_cancel id =
      validate_request (job_id_schema zod id)
        (λ n. async_handler (cancel_job_controller n) next_error) next_error

  unfoldable pub get_jobs_executions : Text → M Reply
  get_jobs_executions id =
      validate_request (job_id_schema zod id)
        (λ n. async_handler (get_job_executions_controller n) next_error) next_error

  unfoldable pub serve : Request Raw → M Reply
  unfolding post_jobs get_jobs_by_id get_jobs_list post_jobs_cancel get_jobs_executions
  serve (submit uuid body key) = post_jobs uuid body key
  serve (show id) = get_jobs_by_id id
  serve (list_all query) = get_jobs_list query
  serve (cancel id) = post_jobs_cancel id
  serve (executions_of id) = get_jobs_executions id
