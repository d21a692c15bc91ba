-- ===== src/Balance/Effects.antt =====
-- The changes that the handlers make to the memory of their process: the metrics, the map of the owned
-- executions and the random numbers.
use zolt.Prelude.{◌∙◌, refl, ℕ, Bool, true, false, Option, none, some, leb, if◌then◌else◌, ◌-◌}
use zolt.Schema.{Job, JobType, JobStatus, Execution, ExecutionStatus}
use zolt.Monad.{execution_duration, Env}
use zolt.Balance.Rules.{Keeps, Tidy}
use zolt.Metrics.{observe_execution_duration, record_execution_retry, count_final, record_metric}
use zolt.Heartbeat.{register_execution, unregister_execution}
use zolt.Heartbeat.Gauge.{register_execution-CountsActive, unregister_execution-CountsActive}
use zolt.Monad.{Metric}
use zolt.Executions.Recovery.{
  observe_success, observe_crash, count_success, count_retry, count_failed,
}
use zolt.Retry.{rest_randoms}

pub metric-Keeps : (m : Metric) → Keeps (record_metric m)
metric-Keeps m = record { keeps = λ e. record { same_connections = refl; counts = λ c. c } }

pub register_execution-Keeps : (id worker : ℕ) → Keeps (register_execution id worker)
unfolding register_execution
register_execution-Keeps id worker = record {
  keeps =
      λ e. record { same_connections = refl; counts = register_execution-CountsActive id worker e };
}

pub unregister_execution-Keeps : (id : ℕ) → Keeps (unregister_execution id)
unfolding unregister_execution
unregister_execution-Keeps id = record {
  keeps = λ e. record { same_connections = refl; counts = unregister_execution-CountsActive id e };
}

observed_case :
    (t : JobType) (s : ExecutionStatus) (duration : ℕ) (b : Bool) (e : Env)
    → Tidy e (if b then record_metric (execution_duration t s duration) e else e)
observed_case t s n true e = record { same_connections = refl; counts = λ c. c }
observed_case t s n false e = record { same_connections = refl; counts = λ c. c }

pub observe_execution_duration-Tidy :
    (t : JobType) (s : ExecutionStatus) (from to : Option ℕ) (e : Env)
    → Tidy e (observe_execution_duration t s from to e)
unfolding observe_execution_duration
observe_execution_duration-Tidy t s none to e = record { same_connections = refl; counts = λ c. c }
observe_execution_duration-Tidy t s (some a) none e = record {
  same_connections = refl;
  counts = λ c. c;
}
observe_execution_duration-Tidy t s (some a) (some b) e = observed_case t s (b - a) (leb a b) e

pub observe_execution_duration-Keeps :
    (t : JobType) (s : ExecutionStatus) (from to : Option ℕ)
    → Keeps (observe_execution_duration t s from to)
observe_execution_duration-Keeps t s from to = record {
  keeps = observe_execution_duration-Tidy t s from to;
}

pub record_execution_retry-Keeps : (t : JobType) → Keeps (record_execution_retry t)
unfolding record_execution_retry
record_execution_retry-Keeps t = metric-Keeps _

pub count_final-Keeps : (row : Option Job) (j : Job) (s : JobStatus) → Keeps (count_final row j s)
unfolding count_final
count_final-Keeps none j s = record {
  keeps = λ e. record { same_connections = refl; counts = λ c. c };
}
count_final-Keeps (some r) j s = record {
  keeps = λ e. record { same_connections = refl; counts = λ c. c };
}

pub count_success-Keeps : (r : Option Job) → Keeps (count_success r)
count_success-Keeps none = record {
  keeps = λ e. record { same_connections = refl; counts = λ c. c };
}
count_success-Keeps (some j) = count_final-Keeps (some j) j JobStatus.completed

pub observe_success-Keeps : (r : Option Job) (c : Execution) → Keeps (observe_success r c)
observe_success-Keeps none c = record {
  keeps = λ e. record { same_connections = refl; counts = λ c. c };
}
observe_success-Keeps (some j) c =
    observe_execution_duration-Keeps j.type c.status c.started_at c.completed_at

pub observe_crash-Keeps : (r : Option Job) (c : Execution) → Keeps (observe_crash r c)
observe_crash-Keeps none c = record {
  keeps = λ e. record { same_connections = refl; counts = λ c. c };
}
observe_crash-Keeps (some j) c =
    observe_execution_duration-Keeps j.type c.status c.started_at c.completed_at

pub count_failed-Keeps : (r : Option Job) → Keeps (count_failed r)
count_failed-Keeps none = record {
  keeps = λ e. record { same_connections = refl; counts = λ c. c };
}
count_failed-Keeps (some j) = count_final-Keeps (some j) j JobStatus.failed

pub count_retry-Keeps : (r : Option Job) → Keeps (count_retry r)
count_retry-Keeps none = record { keeps = λ e. record { same_connections = refl; counts = λ c. c } }
count_retry-Keeps (some j) = record_execution_retry-Keeps j.type

pub after_both : {f g : Env → Env} → Keeps f → Keeps g → Keeps (λ e. g (f e))
after_both {f} h k = record {
  keeps = λ e. record {
    same_connections = (k.keeps (f e)).same_connections ∙ (h.keeps e).same_connections;
    counts = λ c. (k.keeps (f e)).counts ((h.keeps e).counts c);
  };
}

pub crash_failed-Keeps :
    (r j : Option Job) (c : Execution) → Keeps (λ e. count_failed r (observe_crash j c e))
crash_failed-Keeps r j c = after_both (observe_crash-Keeps j c) (count_failed-Keeps r)

pub crash_retry-Keeps :
    (j : Option Job) (c : Execution) → Keeps (λ e. count_retry j (observe_crash j c e))
crash_retry-Keeps j c = after_both (observe_crash-Keeps j c) (count_retry-Keeps j)

pub drop_random-Keeps : Keeps (λ e. record e { randoms = rest_randoms e.randoms })
drop_random-Keeps = record { keeps = λ e. record { same_connections = refl; counts = λ c. c } }

pub ruleset effects = (
  register_execution-Keeps, unregister_execution-Keeps, observe_execution_duration-Keeps,
  record_execution_retry-Keeps, count_final-Keeps, count_success-Keeps, observe_success-Keeps,
  crash_failed-Keeps, crash_retry-Keeps, drop_random-Keeps, metric-Keeps,
)
