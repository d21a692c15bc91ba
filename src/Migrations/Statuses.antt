-- ===== src/Migrations/Statuses.antt =====
-- The statuses that the program writes, their texts, and what the status checks of migrations/ let in.
use zolt.Prelude.{
  subst, inr, text_eq→eq, sym, inl, Bool-cases, ◌↔◌, arith, ◌&&◌, text_eq, ◌≡◌, refl, Bool, true,
  Option, some, List, [], ◌∷◌, map, Text, codes,
}
use zolt.Schema.{JobStatus, ExecutionStatus, IdempotencyStatus, OutboxStatus}
use zolt.Migrations.{Constraint, one_of}
use zolt.Migrations.History.{listed}
use zolt.Migrations.Tracking.{or_right}

-- The tables that have a status.
pub data StatusTable : Type 0 where
  jobs executions idempotency_records outbox : StatusTable

abbrev pub table_name : StatusTable → Text
table_name jobs = codes "jobs"
table_name executions = codes "executions"
table_name idempotency_records = codes "idempotency_records"
table_name outbox = codes "outbox"

abbrev pub check_name : StatusTable → Text
check_name jobs = codes "job_status_check"
check_name executions = codes "executions_status_check"
check_name idempotency_records = codes "idempotency_status_check"
check_name outbox = codes "outbox_status_check"

abbrev pub job_status_text : JobStatus → Text
job_status_text JobStatus.scheduled = codes "SCHEDULED"
job_status_text JobStatus.queued = codes "QUEUED"
job_status_text JobStatus.running = codes "RUNNING"
job_status_text JobStatus.completed = codes "COMPLETED"
job_status_text JobStatus.failed = codes "FAILED"
job_status_text JobStatus.cancelled = codes "CANCELLED"

abbrev pub execution_status_text : ExecutionStatus → Text
execution_status_text ExecutionStatus.scheduled = codes "SCHEDULED"
execution_status_text ExecutionStatus.queued = codes "QUEUED"
execution_status_text ExecutionStatus.running = codes "RUNNING"
execution_status_text ExecutionStatus.completed = codes "COMPLETED"
execution_status_text ExecutionStatus.failed = codes "FAILED"
execution_status_text ExecutionStatus.timed_out = codes "TIMED_OUT"
execution_status_text ExecutionStatus.worker_crashed = codes "WORKER_CRASHED"

abbrev pub idempotency_status_text : IdempotencyStatus → Text
idempotency_status_text IdempotencyStatus.pending = codes "PENDING"
idempotency_status_text IdempotencyStatus.processing = codes "PROCESSING"
idempotency_status_text IdempotencyStatus.completed = codes "COMPLETED"

abbrev pub outbox_status_text : OutboxStatus → Text
outbox_status_text OutboxStatus.pending = codes "PENDING"
outbox_status_text OutboxStatus.published = codes "PUBLISHED"

abbrev pub StatusOf : StatusTable → Type 0
StatusOf jobs = JobStatus
StatusOf executions = ExecutionStatus
StatusOf idempotency_records = IdempotencyStatus
StatusOf outbox = OutboxStatus

abbrev pub status_text : (c : StatusTable) → StatusOf c → Text
status_text jobs = job_status_text
status_text executions = execution_status_text
status_text idempotency_records = idempotency_status_text
status_text outbox = outbox_status_text

abbrev pub statuses : (c : StatusTable) → List (StatusOf c)
statuses jobs =
    JobStatus.scheduled ∷ JobStatus.queued ∷ JobStatus.running ∷ JobStatus.completed
    ∷ JobStatus.failed ∷ JobStatus.cancelled ∷ []
statuses executions =
    ExecutionStatus.scheduled ∷ ExecutionStatus.queued ∷ ExecutionStatus.running
    ∷ ExecutionStatus.completed ∷ ExecutionStatus.failed ∷ ExecutionStatus.timed_out
    ∷ ExecutionStatus.worker_crashed ∷ []
statuses idempotency_records =
    IdempotencyStatus.pending ∷ IdempotencyStatus.processing ∷ IdempotencyStatus.completed ∷ []
statuses outbox = OutboxStatus.pending ∷ OutboxStatus.published ∷ []

-- What a check lets into a column.
unfoldable pub allows : Option Constraint → Text → Text → Bool
unfolding listed
allows (some (one_of c values)) column x = text_eq c column && listed x values
allows _ column x = true

listed-texts :
    {A : Type 0} (text : A → Text) (xs : List A) (x : Text)
    → listed x (map text xs) ≡ true
    → (a : A) × (text a ≡ x)
unfolding listed
listed-texts text [] x h = ground arith
listed-texts text (a ∷ xs) x h = elim (Bool-cases (text_eq x (text a))) [
  | inl e ↦ (a, sym (text_eq→eq x (text a) e))
  | inr e ↦ listed-texts text xs x (or_right _ _ e h)
]

statuses_complete :
    (c : StatusTable) (a : StatusOf c)
    → listed (status_text c a) (map (status_text c) (statuses c)) ≡ true
unfolding listed text_eq
statuses_complete jobs JobStatus.scheduled = refl
statuses_complete jobs JobStatus.queued = refl
statuses_complete jobs JobStatus.running = refl
statuses_complete jobs JobStatus.completed = refl
statuses_complete jobs JobStatus.failed = refl
statuses_complete jobs JobStatus.cancelled = refl
statuses_complete executions ExecutionStatus.scheduled = refl
statuses_complete executions ExecutionStatus.queued = refl
statuses_complete executions ExecutionStatus.running = refl
statuses_complete executions ExecutionStatus.completed = refl
statuses_complete executions ExecutionStatus.failed = refl
statuses_complete executions ExecutionStatus.timed_out = refl
statuses_complete executions ExecutionStatus.worker_crashed = refl
statuses_complete idempotency_records IdempotencyStatus.pending = refl
statuses_complete idempotency_records IdempotencyStatus.processing = refl
statuses_complete idempotency_records IdempotencyStatus.completed = refl
statuses_complete outbox OutboxStatus.pending = refl
statuses_complete outbox OutboxStatus.published = refl

unfoldable pub status_check : (c : StatusTable) → Constraint
status_check c = one_of (codes "status") (map (status_text c) (statuses c))

pub status_check-allows :
    (c : StatusTable) (x : Text)
    → allows (some (status_check c)) (codes "status") x ≡ true
      ↔ ((a : StatusOf c) × (status_text c a ≡ x))
unfolding allows status_check text_eq listed
status_check-allows c x = (
  listed-texts (status_text c) (statuses c) x,
  λ a.
      subst (λ y. listed y (map (status_text c) (statuses c)) ≡ true) a.1 (statuses_complete c a.0),
)
