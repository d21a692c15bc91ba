-- ===== src/Http/Controllers.antt =====
-- The handlers of src/modules/jobs/jobs.controller.ts that read or cancel; createJobController stands with its
-- service. The log entries are left out.
use zolt.Prelude.{ℕ}
use zolt.Monad.{M, ◌>>=◌, pure}
use zolt.Jobs.Service.{get_job_by_id_service, cancel_job_service}
use zolt.Jobs.Listing.{GetJobsQuery, get_jobs}
use zolt.Executions.Recovery.{get_job_executions_service}
use zolt.Http.Reply.{Reply, reply, job_body, jobs_body, cancelled_body, executions_body}

unfoldable pub get_job_by_id_controller : ℕ → M Reply
get_job_by_id_controller id = do job ← get_job_by_id_service id; pure (reply 200 (job_body job))

unfoldable pub get_jobs_controller : GetJobsQuery → M Reply
get_jobs_controller query = do page ← get_jobs query; pure (reply 200 (jobs_body page))

unfoldable pub cancel_job_controller : ℕ → M Reply
cancel_job_controller id = do job ← cancel_job_service id; pure (reply 200 (cancelled_body job))

unfoldable pub get_job_executions_controller : ℕ → M Reply
get_job_executions_controller id = do
  executions ← get_job_executions_service id
  pure (reply 200 (executions_body executions))
