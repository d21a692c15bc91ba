-- ===== src/Metrics.antt =====
-- src/shared/metrics/execution.metrics.ts and the counters of the jobs: what the handlers record.
use zolt.Prelude.{ℕ, ◌-◌, Option, none, some, ◌∷◌, leb, if◌then◌else◌}
use zolt.Schema.{Job, JobType, JobStatus, ExecutionStatus}
use zolt.Monad.{Env, Metric, job_final, execution_duration, execution_retry}

abbrev pub record_metric : Metric → Env → Env
record_metric m e = record e { metrics = m ∷ e.metrics }

-- An attempt that never started, or whose times run backwards, is not observed.
unfoldable pub observe_execution_duration :
    JobType → ExecutionStatus → Option ℕ → Option ℕ → Env → Env
observe_execution_duration type status none completed_at e = e
observe_execution_duration type status (some t) none e = e
observe_execution_duration type status (some t) (some u) e =
    if leb t u then record_metric (execution_duration type status (u - t)) e else e

unfoldable pub record_execution_retry : JobType → Env → Env
record_execution_retry type = record_metric (execution_retry type)

-- if (row) jobsTotalFinalState.labels(type, schedule_type, status).inc()
unfoldable pub count_final : Option Job → Job → JobStatus → Env → Env
count_final none labels status e = e
count_final (some _) labels status e =
    record_metric (job_final labels.type labels.schedule_type status) e
