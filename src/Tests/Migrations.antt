-- ===== src/Tests/Migrations.antt =====
-- A catalog of constraints in which the migrations run, and the theorems on migrations/ applied to it.
use zolt.Prelude.{
  take, ◌↔◌, is_some, ◌∙◌, ◌||◌, text_eq_refl, arith, ◌≡◌, refl, Bool, true, false, ◌&&◌, Option,
  none, some, List, ◌++◌, Text, text_eq, codes, if◌then◌else◌,
}
use zolt.Migrations.{
  drop_constraint, add_constraint, drop_table, create_table, Operation, Constraint,
}
use zolt.Migrations.History.{listed, all_migrations, ups, touches, run_all, IsCatalog, Catalog}
use zolt.Migrations.Checks.{all_migrations-fail, status_checks-allow, down-up}
use zolt.Migrations.Changes.{add_running_to_jobs_status_check}
use zolt.Migrations.Restored.{without_fix}
use zolt.Migrations.Statuses.{status_text, StatusOf, check_name, jobs, table_name, allows}

-- The constraint of a table by their names.
abbrev Constraints : Type 0
Constraints = Text → Text → Option Constraint

abbrev no_constraints : Constraints
no_constraints table name = none

unfoldable put : Text → Text → Option Constraint → Constraints → Constraints
put t n o s table name = if text_eq table t && text_eq name n then o else s table name

unfoldable clear : Text → Constraints → Constraints
clear t s table name = if text_eq table t then none else s table name

-- Without the constraints that PostgreSQL makes up.
unfoldable guarded : Bool → Constraints → Option Constraints
guarded true s = some s
guarded false s = none

unfoldable run_operation : Operation → Constraints → Option Constraints
unfolding put clear guarded
run_operation (create_table t cs) s = some (clear t s)
run_operation (drop_table t) s = some (clear t s)
run_operation (add_constraint t n c) s = some (put t n (some c) s)
run_operation (drop_constraint t n if_exists) s =
    guarded (if_exists || is_some (s t n)) (put t n none s)
run_operation op s = some s

abbrev constraints : Catalog Constraints
constraints = record { run = run_operation; constraint = λ t n s. s t n }

clear-same : (t n : Text) (s : Constraints) → clear t s t n ≡ none
unfolding clear
clear-same t n s = rw (text_eq_refl t) refl

clear-other :
    (t table n : Text) (s : Constraints) → text_eq table t ≡ false → clear t s table n ≡ s table n
unfolding clear
clear-other t table n s e = rw e refl

put-same : (t n : Text) (o : Option Constraint) (s : Constraints) → put t n o s t n ≡ o
unfolding put
put-same t n o s = rw (text_eq_refl t, text_eq_refl n) refl

put-other :
    (t n table name : Text) (o : Option Constraint) (s : Constraints)
    → text_eq table t && text_eq name n ≡ false
    → put t n o s table name ≡ s table name
unfolding put
put-other t n table name o s e = rw e refl

-- The state after an operation that has run.
after : (x s' : Constraints) (t n : Text) → some x ≡ some s' → s' t n ≡ x t n
after x s' t n e = cc

after_guard : (b : Bool) (x s' : Constraints) (t n : Text) → guarded b x ≡ some s' → s' t n ≡ x t n
unfolding guarded
after_guard true x s' t n e = cc
after_guard false x s' t n e = ground arith

kept_by :
    (table name : Text) (op : Operation) (s s' : Constraints)
    → run_operation op s ≡ some s'
    → touches table name op ≡ false
    → s' table name ≡ s table name
unfolding run_operation touches
kept_by table name (create_table t cs) s s' r e =
    after _ s' table name r ∙ clear-other t table name s e
kept_by table name (drop_table t) s s' r e = after _ s' table name r ∙ clear-other t table name s e
kept_by table name (add_constraint t n c) s s' r e =
    after _ s' table name r ∙ put-other t n table name (some c) s e
kept_by table name (drop_constraint t n b) s s' r e =
    after_guard _ _ s' table name r ∙ put-other t n table name none s e
kept_by table name op s s' r e = after s s' table name r

constraints-IsCatalog : IsCatalog constraints
unfolding run_operation guarded
constraints-IsCatalog = record {
  created = λ t n cs s s' r e. after _ s' t n r ∙ clear-same t n s;
  table_dropped = λ t n s s' r. after _ s' t n r ∙ clear-same t n s;
  added = λ t n c s s' r. after _ s' t n r ∙ put-same t n (some c) s;
  dropped = λ t n b s s' r. after_guard _ _ s' t n r ∙ put-same t n none s;
  missing = λ t n s e. rw e refl;
  spared = λ t n cs s s' r e. after s s' t n r;
  kept = kept_by;
}

abbrev state_of : Option Constraints → Constraints
state_of none = no_constraints
state_of (some s) = s

abbrev state_after : List Operation → Constraints → Constraints
state_after ops s = state_of (run_all constraints ops s)

-- Without the migration of leases.worker_id the others run, and QUEUED is then a status of jobs.
runs :
    run_all constraints (ups without_fix) no_constraints
    ≡ some (state_after (ups without_fix) no_constraints)
unfolding run_all run_operation ups text_eq
runs = refl

all_migrations-fail_example : run_all constraints (ups all_migrations) no_constraints ≡ none
all_migrations-fail_example = all_migrations-fail constraints constraints-IsCatalog no_constraints

status_checks-allow_example :
    allows
        (constraints.constraint
          (table_name jobs)
          (check_name jobs)
          (state_after (ups without_fix) no_constraints))
        (codes "status")
        (codes "QUEUED")
      ≡ true
    ↔ ((a : StatusOf jobs) × (status_text jobs a ≡ codes "QUEUED"))
status_checks-allow_example =
    status_checks-allow constraints constraints-IsCatalog jobs no_constraints
      (state_after (ups without_fix) no_constraints) runs (codes "QUEUED")

abbrev before_running : Constraints
before_running = state_after (ups (take 7 without_fix)) no_constraints

abbrev up_and_down : List Operation
up_and_down = add_running_to_jobs_status_check.up ++ add_running_to_jobs_status_check.down

before_running_runs :
    run_all constraints (ups (take 7 without_fix)) no_constraints ≡ some before_running
unfolding run_all run_operation ups text_eq
before_running_runs = refl

up_and_down_runs :
    run_all constraints up_and_down before_running ≡ some (state_after up_and_down before_running)
unfolding run_all run_operation ups text_eq
up_and_down_runs = refl

-- Before add-running-to-jobs-status-check a job could not be RUNNING.
running_refused :
    allows (before_running (table_name jobs) (check_name jobs)) (codes "status") (codes "RUNNING")
    ≡ false
unfolding run_all run_operation ups text_eq allows listed
running_refused = refl

down-up_example :
    state_after up_and_down before_running (table_name jobs) (check_name jobs)
    ≡ before_running (table_name jobs) (check_name jobs)
down-up_example =
    down-up constraints constraints-IsCatalog jobs 7 add_running_to_jobs_status_check no_constraints
      before_running (state_after up_and_down before_running) refl refl before_running_runs
      up_and_down_runs
