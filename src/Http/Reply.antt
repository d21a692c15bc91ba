-- ===== src/Http/Reply.antt =====
-- What the API answers: the status codes and the bodies of src/modules/jobs/jobs.controller.ts,
-- src/middleware/error.middleware.ts and src/middleware/not-found.middleware.ts. The fixed texts of the
-- field `message` are told apart by the constructors.
use zolt.Prelude.{ℕ, Bool, List, Text}
use zolt.Schema.{Job, Execution}
use zolt.Monad.{Message}
use zolt.Jobs.Listing.{JobPage}

-- The field `status` of the body of an error.
pub data ErrorStatus : Type 0 where
  fail error : ErrorStatus

pub data ErrorText : Type 0 where
  said : Message → ErrorText
  something_went_wrong : ErrorText
  route_not_found : Text → Text → ErrorText

pub data Body : Type 0 where
  created_body : Bool → Job → Body
  job_body : Job → Body
  jobs_body : JobPage → Body
  cancelled_body : Job → Body
  executions_body : List Execution → Body
  error_body : ErrorStatus → ErrorText → Body

pub record Reply : Type 0 where
  pub code : ℕ
  pub body : Body

abbrev pub reply : ℕ → Body → Reply
reply c b = record { code = c; body = b }
