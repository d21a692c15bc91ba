-- ===== src/Http/JobSchema.antt =====
-- src/modules/jobs/job.schema.ts. The checks of the single fields are zod's and stand in the record `Zod`;
-- the rule on run_at is the file's own.
use zolt.Prelude.{
  ℕ, Bool, true, false, not, ◌&&◌, Option, none, some, List, [], ◌∷◌, ◌++◌, Text, codes,
  if◌then◌else◌,
}
use zolt.Schema.{JobType, ScheduleType, immediate, once}
use zolt.Jobs.Listing.{GetJobsQuery}
use zolt.Http.Middleware.{Issue, Parse, parsed, zod_error, rejected}

-- The fields of a body that passes the checks of its fields; max_attempts has its default.
pub record JobFields : Type 0 where
  pub title : Text
  pub type : JobType
  pub schedule_type : ScheduleType
  pub payload : Option Text
  pub run_at : Option Text
  pub max_attempts : ℕ

-- The bounds of the fields of a body: z.string().min().max() of the title, z.enum() of the two kinds, and
-- z.number().int().min().default() of max_attempts. payload is an optional record and run_at an optional
-- string.
pub record JobRules : Type 0 where
  pub title_min : ℕ
  pub title_max : ℕ
  pub types : List Text
  pub schedule_types : List Text
  pub attempts_min : ℕ
  pub attempts_default : ℕ

-- Those of a query: z.coerce.number().int() with .min(), .max() and .default() of page and limit, the optional
-- z.enum() of the status, and z.enum().default() of sortBy and order.
pub record ListingRules : Type 0 where
  pub page_min : ℕ
  pub page_default : ℕ
  pub limit_min : ℕ
  pub limit_max : ℕ
  pub limit_default : ℕ
  pub statuses : List Text
  pub sort_keys : List Text
  pub sort_default : Text
  pub orders : List Text
  pub order_default : Text

abbrev pub job_rules : JobRules
job_rules = record {
  title_min = 10;
  title_max = 255;
  types =
      codes "SEND_EMAIL"
      ∷ codes "CREATE_CAMPAIGN"
      ∷ codes "GENERATE_REPORT"
      ∷ codes "WEB_HOOK"
      ∷ [];
  schedule_types = codes "IMMEDIATE" ∷ codes "ONCE" ∷ [];
  attempts_min = 1;
  attempts_default = 3;
}

abbrev pub listing_rules : ListingRules
listing_rules = record {
  page_min = 1;
  page_default = 1;
  limit_min = 1;
  limit_max = 100;
  limit_default = 20;
  statuses =
      codes "SCHEDULED"
      ∷ codes "QUEUED"
      ∷ codes "RUNNING"
      ∷ codes "COMPLETED"
      ∷ codes "FAILED"
      ∷ codes "CANCELLED"
      ∷ [];
  sort_keys = codes "createdAt" ∷ codes "updatedAt" ∷ codes "runAt" ∷ [];
  sort_default = codes "createdAt";
  orders = codes "asc" ∷ codes "desc" ∷ [];
  order_default = codes "desc";
}

-- What zod makes of a body, of a query and of a path parameter by such rules; `Raw` are the values as Express
-- reads them. A uuid stands for the number that the model has for it.
pub record Zod (Raw : Type 0) : Type 0 where
  pub job_fields : JobRules → Raw → Parse JobFields
  pub jobs_query : ListingRules → Raw → Parse GetJobsQuery
  pub uuid : Text → Parse ℕ

-- A text is falsy if it is missing or empty.
unfoldable pub is_given : Option Text → Bool
is_given none = false
is_given (some []) = false
is_given (some (_ ∷ _)) = true

abbrev pub is_once : ScheduleType → Bool
is_once once = true
is_once immediate = false

abbrev pub issue : Text → Issue
issue m = record { message = m }

-- The function of superRefine.
unfoldable pub run_at_issues : ScheduleType → Option Text → List Issue
unfolding is_given
run_at_issues schedule_type run_at =
    (if is_once schedule_type && not (is_given run_at)
      then issue (codes "run_at is required for ONCE jobs") ∷ []
      else [])
    ++ (if not (is_once schedule_type) && is_given run_at
        then issue (codes "run_at must not be provided for IMMEDIATE jobs") ∷ []
        else [])

abbrev pub refined : JobFields → List Issue → Parse JobFields
refined f [] = parsed f
refined f (i ∷ is) = zod_error (i ∷ is)

-- zod runs a refinement on what the checks of the fields let through.
abbrev pub refine : Parse JobFields → Parse JobFields
refine (parsed f) = refined f (run_at_issues f.schedule_type f.run_at)
refine (zod_error is) = zod_error is
refine rejected = rejected

module _ {Raw : Type 0} (zod : Zod Raw) where
  unfoldable pub create_job_schema : Raw → Parse JobFields
  unfolding run_at_issues
  create_job_schema raw = refine (zod.job_fields job_rules raw)

  unfoldable pub get_jobs_schema : Raw → Parse GetJobsQuery
  get_jobs_schema raw = zod.jobs_query listing_rules raw

  -- getJobByIdSchema, cancelJobByIdSchema and getJobExecutionsSchema
  unfoldable pub job_id_schema : Text → Parse ℕ
  job_id_schema id = zod.uuid id
