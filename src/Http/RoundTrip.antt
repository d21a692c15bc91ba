-- ===== src/Http/RoundTrip.antt =====
-- A job that is posted to the routes of src/modules/jobs/jobs.routes.ts, read back, and posted again.
use zolt.Prelude.{
  suc, ℕ, ◌≡◌, ◌∙◌, ap, sym, refl, Bool, true, false, Option, none, some, List, [], ◌∷◌, Text, ltb,
  length, ◌||◌, ◌==◌, same_number, select_first-insert, exists-insert, text_eq_refl,
}
use zolt.Schema.{Db, Job, immediate, once, ScheduleType}
use zolt.Monad.{calm, Env, ok, running}
use zolt.Jobs.Submission.{
  allowed_length, has_time, data_of, due_at, new_env, create_job_service-fresh,
  create_job_service-taken,
}
use zolt.Http.Middleware.{rejected}
use zolt.Jobs.Deduplication.{created, job_of_key-created}
use zolt.Http.JobSchema.{
  job_rules, refined, job_id_schema, refine, run_at_issues, create_job_schema, Zod, JobFields,
}
use zolt.Http.Middleware.{async_handler, validate_request, zod_error, parsed, Issue, Parse}
use zolt.Jobs.Repository.{
  storable, new_record, has_key, job_of_key, key_allowed, key_taken, new_job, CreateJobData,
  get_job_by_id,
}
use zolt.Http.Routes.{post_jobs, input_of, get_jobs_by_id, date_of, Express}
use zolt.Jobs.Service.{CreateJobInput, get_job_by_id_service, create_job_controller, trim}
use zolt.Http.Controllers.{get_job_by_id_controller}
use zolt.Http.Errors.{global_error_handler}
use zolt.Http.Reply.{job_body, created_body, reply}

-- A body that the schema lets through has a time where it needs one.
abbrev timely : (Text → Option ℕ) → Parse JobFields → Bool
timely date (parsed f) = has_time f.schedule_type (input_of date f).run_at
timely date (zod_error is) = true
timely date rejected = true

no_issue :
    (date : Text → Option ℕ) (s : ScheduleType) (t : Option Text)
    → run_at_issues s t ≡ []
    → has_time s (date_of date t) ≡ true
unfolding run_at_issues
no_issue date immediate t h = refl
no_issue date once none h = cc
no_issue date once (some []) h = cc
no_issue date once (some (c ∷ cs)) h = refl

refined-timely :
    (date : Text → Option ℕ) (f : JobFields) (is : List Issue)
    → run_at_issues f.schedule_type f.run_at ≡ is
    → timely date (refined f is) ≡ true
refined-timely date f [] h = no_issue date f.schedule_type f.run_at h
refined-timely date f (i ∷ is) h = refl

refine-timely : (date : Text → Option ℕ) (p : Parse JobFields) → timely date (refine p) ≡ true
refine-timely date (parsed f) = refined-timely date f (run_at_issues f.schedule_type f.run_at) refl
refine-timely date (zod_error is) = refl
refine-timely date rejected = refl

schema-timely :
    {Raw : Type 0} (zod : Zod Raw) (date : Text → Option ℕ) (body : Raw) {f : JobFields}
    → create_job_schema zod body ≡ parsed f
    → has_time f.schedule_type (input_of date f).run_at ≡ true
unfolding create_job_schema
schema-timely zod date body h =
    ap (timely date) (sym h) ∙ refine-timely date (zod.job_fields job_rules body)

-- The data of the job that a submission at a time describes.
abbrev pub submitted : CreateJobInput → ℕ → CreateJobData
submitted i now = data_of i (due_at i.schedule_type i.run_at now)

stored :
    (c : CreateJobData) (k : Text) (d : Db) (now : ℕ)
    → get_job_by_id d.next_id d ≡ none
    → get_job_by_id d.next_id (created c k d now) ≡ some (new_job c d.next_id now)
unfolding get_job_by_id
stored c k d now unused =
    select_first-insert (λ j. j.id == d.next_id) (new_job c d.next_id now) d.jobs unused
      (same_number d.next_id)

module _ {Raw : Type 0} (zod : Zod Raw) (express : Express Raw) where
  post-fresh :
      (uuid : Text) (body : Raw) (key : Text) (d : Db) (env : Env) {f : JobFields}
      → create_job_schema zod body ≡ parsed f
      → storable (submitted (input_of express.date f) env.now) ≡ true
      → key_taken (trim key) d ≡ false
      → key_allowed d.next_id (trim key) d ≡ true
      → let i = input_of express.date f in
        let c = data_of i (due_at i.schedule_type i.run_at env.now) in
        let j = new_job c d.next_id env.now in
        post_jobs zod express global_error_handler uuid body (some key) (calm d env) ≡ (
          ok (reply 201 (created_body false j)),
          calm (created c (trim key) d env.now) (new_env j env),
        )
  unfolding post_jobs validate_request async_handler create_job_controller running
  post-fresh uuid body key d env {f = f} valid fits fresh allowed =
      rw
        (
          valid,
          create_job_service-fresh uuid (input_of express.date f) key d env
              (schema-timely zod express.date body valid) fits fresh allowed,
        )
        refl

  post-taken :
      (uuid : Text) (body : Raw) (key : Text) (d : Db) (env : Env) {f : JobFields} {j : Job}
      → create_job_schema zod body ≡ parsed f
      → storable (submitted (input_of express.date f) env.now) ≡ true
      → (ltb (length (trim key)) 1 || ltb 200 (length (trim key))) ≡ false
      → key_taken (trim key) d ≡ true
      → job_of_key (trim key) d ≡ some j
      → post_jobs zod express global_error_handler uuid body (some key) (calm d env)
        ≡ (ok (reply 200 (created_body true j)), calm d env)
  unfolding post_jobs validate_request async_handler create_job_controller running
  post-taken uuid body key d env {f = f} valid fits short taken owner =
      rw
        (
          valid,
          create_job_service-taken uuid (input_of express.date f) key d env
              (schema-timely zod express.date body valid) fits short taken owner,
        )
        refl

  get-found :
      (id : Text) (n : ℕ) (d : Db) (env : Env) {j : Job}
      → job_id_schema zod id ≡ parsed n
      → get_job_by_id n d ≡ some j
      → get_jobs_by_id zod express global_error_handler id (calm d env)
        ≡ (ok (reply 200 (job_body j)), calm d env)
  unfolding get_jobs_by_id validate_request async_handler get_job_by_id_controller
      get_job_by_id_service running
  get-found id n d env valid found = rw (valid, found) refl

  -- Where no round trip fails: if a body that the schema lets through and the columns take (its title fits
  -- varchar(255), its run_at is a date that PostgreSQL stores, if it has one, and its max_attempts is at most
  -- 2147483647) is posted with a fresh key, which trimmed has 1 to 200 characters, and no job and no record has the
  -- number of the next row as its job id, the reply is 201 with the job
  -- as the body describes it, SCHEDULED. A GET of its id is then answered 200 with that job, and another
  -- such body posted with the same key is answered 200 with that job, and neither writes anything.
  pub post_jobs-round_trip :
      (uuid uuid' : Text) (body body' : Raw) (key id : Text) (d : Db) (env : Env) {f f' : JobFields}
      → create_job_schema zod body ≡ parsed f
      → create_job_schema zod body' ≡ parsed f'
      → storable (submitted (input_of express.date f) env.now) ≡ true
      → storable (submitted (input_of express.date f') env.now) ≡ true
      → job_id_schema zod id ≡ parsed d.next_id
      → key_taken (trim key) d ≡ false
      → key_allowed d.next_id (trim key) d ≡ true
      → get_job_by_id d.next_id d ≡ none
      → let i = input_of express.date f in
        let j = new_job (data_of i (due_at i.schedule_type i.run_at env.now)) d.next_id env.now in
        let r = post_jobs zod express global_error_handler uuid body (some key) (calm d env) in
        (r.0 ≡ ok (reply 201 (created_body false j)))
        × (get_jobs_by_id zod express global_error_handler id r.1
            ≡ (ok (reply 200 (job_body j)), r.1))
        × (post_jobs zod express global_error_handler uuid' body' (some key) r.1
            ≡ (ok (reply 200 (created_body true j)), r.1))
  post_jobs-round_trip uuid uuid' body body' key id d env {f = f} valid valid' fits fits' named
        fresh allowed unused =
      let i = input_of express.date f in
      let c = data_of i (due_at i.schedule_type i.run_at env.now) in
      let after = created c (trim key) d env.now in
      let env' = new_env (new_job c d.next_id env.now) env in
      rw (post-fresh uuid body key d env valid fits fresh allowed) (
        refl,
        get-found id d.next_id after env' named (stored c (trim key) d env.now unused),
        post-taken uuid' body' key after env' valid' fits'
            (allowed_length d.next_id (trim key) d allowed)
            (exists-insert (has_key (trim key))
              (new_record d.next_id (trim key) (suc d.next_id) env.now) d.idempotency_records
              (text_eq_refl (trim key)))
            (job_of_key-created c (trim key) d env.now fresh unused),
      )
