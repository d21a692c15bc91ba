-- ===== src/Http/Answers.antt =====
-- Every request to the routes of src/modules/jobs/jobs.routes.ts is answered once, whatever fails.
use zolt.Prelude.{
  false, if◌then◌else◌, ℕ, ◌≡◌, refl, Bool, true, none, some, Option, List, [], ◌∷◌, Text,
}
use zolt.Monad
use zolt.Http.Middleware.{rejected}
use zolt.Schema.{ScheduleType, immediate, once}
use zolt.Monad.{continue, caught, M, World, Result, ok, err}
use zolt.Http.Codes.{code_in, reply_in, code_of, throws, Throws, among}
use zolt.Jobs.Service.{
  created_reply, create_job_controller, create_job_service, cancel_job_service,
  get_job_by_id_service, resolve_run_at, resolve_idempotency_key, CreateJobInput,
}
use zolt.Http.Errors.{thrown, HttpError, new_app_error, error_reply, global_error_handler}
use zolt.Http.Middleware.{zod_error, parsed, Parse, validate_request, async_handler}
use zolt.Http.Reply.{jobs_body, job_body, executions_body, cancelled_body, reply, Reply}
use zolt.Executions.Recovery.{get_job_executions_service}
use zolt.Http.JobSchema.{job_id_schema, get_jobs_schema, create_job_schema, Zod}
use zolt.Jobs.Listing.{GetJobsQuery, get_jobs}
use zolt.Jobs.Repository.{CreateJobData, create_job_with_idempotency, cancel_job_status}
use zolt.Http.Routes.{
  executions_of, cancel, list_all, show, submit, serve, Request, input_of, post_jobs_cancel,
  post_jobs, get_jobs_list, get_jobs_executions, get_jobs_by_id, Express,
}
use zolt.Http.Controllers.{
  get_jobs_controller, get_job_executions_controller, get_job_by_id_controller,
  cancel_job_controller,
}

-- What a handler answers, with the error handler behind it.
record Answers (cs : List ℕ) (m : M Reply) : Type 0 where
  pub run : (w : World) → (r : Reply) × ((m w).0 ≡ ok r) × (among cs r.code ≡ true)

-- A handler that either throws, or resolves with a reply of one code.
record Replies (cs : List ℕ) (m : M Reply) : Type 0 where
  pub codes : (w : World) → reply_in cs (m w).0 ≡ true

caught_case :
    (cs : List ℕ) (r : Result Reply × World)
    → reply_in cs r.0 ≡ true
    → (s : Reply) × ((caught (λ e. global_error_handler (thrown e)) r).0 ≡ ok s)
      × (among cs s.code ≡ true)
unfolding global_error_handler code_of Monad.pure
caught_case cs (ok s, w) h = (s, refl, h)
caught_case cs (err e, w) h = (error_reply (thrown e), refl, h)

reply_case :
    {A : Type 0} (cs : List ℕ) (f : A → Reply) (r : Result A × World)
    → code_in cs r.0 ≡ true
    → ((a : A) → among cs (f a).code ≡ true)
    → reply_in cs (continue (λ a. Monad.pure (f a)) r).0 ≡ true
unfolding Monad.pure
reply_case cs f (ok a, w) h g = g a
reply_case cs f (err e, w) h g = h

module _ {cs : List ℕ} where
  async_handler-Answers :
      {m : M Reply} → Replies cs m → Answers cs (async_handler m global_error_handler)
  unfolding async_handler Monad.try_catch
  async_handler-Answers {m = m} h = record { run = λ w. caught_case cs (m w) (h.codes w) }

  then_reply :
      {A : Type 0} {m : M A} (f : A → Reply)
      → Throws cs m
      → ((a : A) → among cs (f a).code ≡ true)
      → Replies cs (Monad.◌>>=◌ m (λ a. Monad.pure (f a)))
  unfolding Monad.◌>>=◌
  then_reply {m = m} f h g = record { codes = λ w. reply_case cs f (m w) (h.run w) g }

  refused-Answers :
      (e : HttpError) → among cs (error_reply e).code ≡ true → Answers cs (global_error_handler e)
  unfolding global_error_handler Monad.pure
  refused-Answers e h = record { run = λ w. (error_reply e, refl, h) }

  validate_request-Answers :
      {A : Type 0} (p : Parse A) {next : A → M Reply}
      → among cs 400 ≡ true
      → among cs 500 ≡ true
      → ((a : A) → Answers cs (next a))
      → Answers cs (validate_request p next global_error_handler)
  unfolding validate_request error_reply new_app_error
  validate_request-Answers (parsed a) h g n = n a
  validate_request-Answers (zod_error is) h g n = refused-Answers _ h
  validate_request-Answers rejected h g n = refused-Answers _ g

get_job_by_id_service-Throws :
    (id : ℕ) → Throws (200 ∷ 400 ∷ 404 ∷ 500 ∷ []) (get_job_by_id_service id)
unfolding get_job_by_id_service code_of
get_job_by_id_service-Throws id = search throws depth 12

cancel_job_service-Throws :
    (id : ℕ) → Throws (200 ∷ 400 ∷ 404 ∷ 409 ∷ 500 ∷ []) (cancel_job_service id)
unfolding cancel_job_service cancel_job_status code_of
cancel_job_service-Throws id = search throws depth 12

get_job_executions_service-Throws :
    (id : ℕ) → Throws (200 ∷ 400 ∷ 404 ∷ 500 ∷ []) (get_job_executions_service id)
unfolding get_job_executions_service code_of
get_job_executions_service-Throws id = search throws depth 12

get_jobs-Throws : (q : GetJobsQuery) → Throws (200 ∷ 400 ∷ 500 ∷ []) (get_jobs q)
unfolding get_jobs
get_jobs-Throws q = search throws depth 12

abbrev create_codes : List ℕ
create_codes = 200 ∷ 201 ∷ 400 ∷ 500 ∷ []

resolve_run_at-Throws :
    (s : ScheduleType) (t : Option (Option ℕ)) → Throws create_codes (resolve_run_at s t)
unfolding resolve_run_at code_of
resolve_run_at-Throws immediate t = search throws
resolve_run_at-Throws once t = search throws depth 8

resolve_idempotency_key-Throws :
    (u : Text) (k : Option Text) → Throws create_codes (resolve_idempotency_key u k)
unfolding resolve_idempotency_key code_of
resolve_idempotency_key-Throws u none = search throws
resolve_idempotency_key-Throws u (some k) = search throws depth 8

create_job_with_idempotency-Throws :
    (c : CreateJobData) (k : Text) → Throws create_codes (create_job_with_idempotency c k)
unfolding create_job_with_idempotency code_of
create_job_with_idempotency-Throws c k = search throws depth 30

create_job_service-Throws :
    (u : Text) (i : CreateJobInput) (k : Option Text)
    → Throws create_codes (create_job_service u i k)
unfolding create_job_service code_of
create_job_service-Throws u i k =
    search
      (
        throws, resolve_run_at-Throws, resolve_idempotency_key-Throws,
        create_job_with_idempotency-Throws,
      )
      depth 20

created_codes : (b : Bool) → among create_codes (if b then 200 else 201) ≡ true
created_codes true = refl
created_codes false = refl

-- The codes of a route.
abbrev pub codes_of : {Raw : Type 0} → Request Raw → List ℕ
codes_of (submit uuid body key) = 200 ∷ 201 ∷ 400 ∷ 500 ∷ []
codes_of (show id) = 200 ∷ 400 ∷ 404 ∷ 500 ∷ []
codes_of (list_all query) = 200 ∷ 400 ∷ 500 ∷ []
codes_of (cancel id) = 200 ∷ 400 ∷ 404 ∷ 409 ∷ 500 ∷ []
codes_of (executions_of id) = 200 ∷ 400 ∷ 404 ∷ 500 ∷ []

module _ {Raw : Type 0} (zod : Zod Raw) (express : Express Raw) (w : World) where
  -- Whatever the body, the key and the world are, and whichever round trips fail, POST /jobs answers, with
  -- the code 200, 201, 400 or 500.
  pub post_jobs-answers :
      (uuid : Text) (body : Raw) (key : Option Text)
      → (r : Reply) × ((post_jobs zod express global_error_handler uuid body key w).0 ≡ ok r)
        × (among (200 ∷ 201 ∷ 400 ∷ 500 ∷ []) r.code ≡ true)
  unfolding post_jobs create_job_controller
  post_jobs-answers uuid body key =
      (validate_request-Answers (create_job_schema zod body) refl refl (λ f. async_handler-Answers (
          then_reply created_reply (create_job_service-Throws uuid (input_of express.date f) key)
            (λ c. created_codes c.deduplicated)))).run
        w

  -- GET /jobs/:id answers, with the code 200, 400, 404 or 500.
  pub get_jobs_by_id-answers :
      (id : Text)
      → (r : Reply) × ((get_jobs_by_id zod express global_error_handler id w).0 ≡ ok r)
        × (among (200 ∷ 400 ∷ 404 ∷ 500 ∷ []) r.code ≡ true)
  unfolding get_jobs_by_id get_job_by_id_controller
  get_jobs_by_id-answers id =
      (validate_request-Answers (job_id_schema zod id) refl refl (λ n. async_handler-Answers (
          then_reply (λ j. reply 200 (job_body j)) (get_job_by_id_service-Throws n)
            (λ j. refl)))).run
        w

  pub get_jobs_list-answers :
      (query : Raw)
      → (r : Reply) × ((get_jobs_list zod express global_error_handler query w).0 ≡ ok r)
        × (among (200 ∷ 400 ∷ 500 ∷ []) r.code ≡ true)
  unfolding get_jobs_list get_jobs_controller
  get_jobs_list-answers query =
      (validate_request-Answers (get_jobs_schema zod query) refl refl (λ q. async_handler-Answers (
          then_reply (λ p. reply 200 (jobs_body p)) (get_jobs-Throws (express.query_later query q))
            (λ p. refl)))).run
        w

  pub post_jobs_cancel-answers :
      (id : Text)
      → (r : Reply) × ((post_jobs_cancel zod express global_error_handler id w).0 ≡ ok r)
        × (among (200 ∷ 400 ∷ 404 ∷ 409 ∷ 500 ∷ []) r.code ≡ true)
  unfolding post_jobs_cancel cancel_job_controller
  post_jobs_cancel-answers id =
      (validate_request-Answers (job_id_schema zod id) refl refl (λ n. async_handler-Answers (
          then_reply (λ j. reply 200 (cancelled_body j)) (cancel_job_service-Throws n)
            (λ j. refl)))).run
        w

  pub get_jobs_executions-answers :
      (id : Text)
      → (r : Reply) × ((get_jobs_executions zod express global_error_handler id w).0 ≡ ok r)
        × (among (200 ∷ 400 ∷ 404 ∷ 500 ∷ []) r.code ≡ true)
  unfolding get_jobs_executions get_job_executions_controller
  get_jobs_executions-answers id =
      (validate_request-Answers (job_id_schema zod id) refl refl (λ n. async_handler-Answers (
          then_reply (λ es. reply 200 (executions_body es)) (get_job_executions_service-Throws n)
            (λ es. refl)))).run
        w

  -- Whatever a request to one of the routes and the world are, and whichever round trips fail, the request is
  -- answered: POST /jobs with the code 200, 201, 400 or 500, POST /jobs/:id/cancel with 200, 400, 404, 409 or
  -- 500, GET /jobs with 200, 400 or 500, and the others with 200, 400, 404 or 500.
  pub serve-answers :
      (request : Request Raw)
      → (r : Reply) × ((serve zod express global_error_handler request w).0 ≡ ok r)
        × (among (codes_of request) r.code ≡ true)
  unfolding serve
  serve-answers (submit uuid body key) = post_jobs-answers uuid body key
  serve-answers (show id) = get_jobs_by_id-answers id
  serve-answers (list_all query) = get_jobs_list-answers query
  serve-answers (cancel id) = post_jobs_cancel-answers id
  serve-answers (executions_of id) = get_jobs_executions-answers id
