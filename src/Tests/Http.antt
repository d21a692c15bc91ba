-- ===== src/Tests/Http.antt =====
-- The routes at concrete requests.
use zolt.Prelude.{
  text_eq, select_first, Bool, exists, Option, List, ◌≡◌, refl, true, false, none, some, [], ◌∷◌,
  codes, length, not,
}
use zolt.Schema.{fits_varchar, send_email, once, immediate}
use zolt.Tests.Data.{due_db, env_at, before}
use zolt.Monad.{next_fault, calm, ok, err, Env}
use zolt.Monad
use zolt.Jobs.Submission.{data_of, due_at}
use zolt.Http.Controllers.{get_job_by_id_controller}
use zolt.Http.Health.{health_probe}
use zolt.Http.InFlight.Gauge.{on_events-IsCounted, IsCounted}
use zolt.Http.JobSchema.{run_at_issues, job_id_schema, create_job_schema, Zod, JobFields}
use zolt.Http.Middleware.{parsed, async_handler}
use zolt.Http.Reply.{job_body, created_body, reply, Reply}
use zolt.Http.Routes.{cancel, serve, post_jobs, get_jobs_by_id, input_of, Express}
use zolt.Jobs.Repository.{storable, key_taken, key_allowed, new_job, get_job_by_id}
use zolt.Http.Errors.{global_error_handler}
use zolt.Http.Health.Probe.{health_probe-answers, probed, is_pong, health_of}
use zolt.Http.InFlight.{settles, no_requests, arrives, on_events, HttpEvent}
use zolt.Jobs.Service.{trim, get_job_by_id_service}
use zolt.Http.Codes.{among}
use zolt.Http.Replies.{async_handler-tells, told}
use zolt.Http.Answers.{serve-answers}
use zolt.Http.RoundTrip.{submitted, post_jobs-round_trip}

abbrev plain_zod : Zod JobFields
plain_zod = record {
  job_fields = λ r f. parsed f;
  jobs_query = λ r f. parsed (record {
    page = some r.page_default;
    limit = some r.limit_default;
    status = none;
    sort_by = none;
    order = none;
  });
  uuid = λ t. parsed (length t);
}

abbrev plain_express : Express JobFields
plain_express = record { date = λ t. some (length t); query_later = λ f q. q }

abbrev greeting : JobFields
greeting = record {
  title = codes "Welcome email";
  type = send_email;
  schedule_type = immediate;
  payload = none;
  run_at = none;
  max_attempts = 3;
}

serve-answers_example :
    (r : Reply) × ((serve plain_zod plain_express global_error_handler
        (cancel (codes "a"))
        before).0
      ≡ ok r)
    × (among (200 ∷ 400 ∷ 404 ∷ 409 ∷ 500 ∷ []) r.code ≡ true)
serve-answers_example = serve-answers plain_zod plain_express before (cancel (codes "a"))

missing : get_job_by_id 9 due_db ≡ none
unfolding get_job_by_id select_first
missing = refl

not_there :
    get_job_by_id_controller 9 before ≡ (err (Monad.app_error Monad.error_finding_job 404), before)
unfolding get_job_by_id_controller get_job_by_id_service Monad.running
not_there = rw missing refl

async_handler-tells_example :
    async_handler (get_job_by_id_controller 9) global_error_handler before
    ≡ (ok (told (Monad.app_error Monad.error_finding_job 404)), before)
async_handler-tells_example =
    async_handler-tells (get_job_by_id_controller 9) (Monad.app_error Monad.error_finding_job 404)
      before before not_there refl

abbrev undated : JobFields
undated = record greeting { schedule_type = once }

greeting_passes : create_job_schema plain_zod greeting ≡ parsed greeting
unfolding create_job_schema run_at_issues
greeting_passes = refl

named_five : job_id_schema plain_zod (codes "12345") ≡ parsed 5
unfolding job_id_schema
named_five = refl

new_key : key_taken (trim (codes " welcome-2")) due_db ≡ false
unfolding exists text_eq trim
new_key = refl

new_key_allowed : key_allowed 5 (trim (codes " welcome-2")) due_db ≡ true
unfolding exists trim
new_key_allowed = refl

fifth_unused : get_job_by_id 5 due_db ≡ none
unfolding get_job_by_id select_first
fifth_unused = refl

greeting_fits : storable (submitted (input_of plain_express.date greeting) 200) ≡ true
unfolding fits_varchar
greeting_fits = refl

post_jobs-round_trip_example :
    let i = input_of plain_express.date greeting in
    let j = new_job (data_of i (due_at i.schedule_type i.run_at 200)) 5 200 in
    let r =
      post_jobs plain_zod plain_express global_error_handler
        (codes "u")
        greeting
        (some (codes " welcome-2"))
        before in
    (r.0 ≡ ok (reply 201 (created_body false j)))
    × (get_jobs_by_id plain_zod plain_express global_error_handler (codes "12345") r.1
        ≡ (ok (reply 200 (job_body j)), r.1))
    × (post_jobs plain_zod plain_express global_error_handler
          (codes "v")
          greeting
          (some (codes " welcome-2"))
          r.1
        ≡ (ok (reply 200 (created_body true j)), r.1))
post_jobs-round_trip_example =
    post_jobs-round_trip plain_zod plain_express (codes "u") (codes "v") greeting greeting
      (codes " welcome-2") (codes "12345") due_db (env_at 200) greeting_passes greeting_passes
      greeting_fits greeting_fits named_five new_key new_key_allowed fifth_unused

-- Three requests, of which the second is for the metrics, and whose responses finish and close.
abbrev traffic : List HttpEvent
traffic =
    arrives (codes "/health")
    ∷ arrives (codes "/metrics")
    ∷ arrives (codes "/api/v1/jobs")
    ∷ settles 0 true
    ∷ settles 0 true
    ∷ settles 1 false
    ∷ []

on_events-IsCounted_example : IsCounted traffic (on_events traffic no_requests)
on_events-IsCounted_example = on_events-IsCounted traffic

abbrev silent : Env → Option Bool
silent e = none

health_probe-answers_example : health_probe silent before ≡ (
  ok (
      health_of
        (not (next_fault before.env.faults))
        (is_pong (silent (probed before).env))
        before.env.now),
  probed before,
)
health_probe-answers_example = health_probe-answers silent before
