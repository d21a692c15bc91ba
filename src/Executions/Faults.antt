-- ===== src/Executions/Faults.antt =====
-- What a failure in the wrong place leaves behind, in src/modules/executions/execution.service.ts.
use zolt.Prelude.{
  zero, suc, drop, false, leb, ltb, exists, length, Text, ◌<◌, some, Bool, [], List, ℕ, ◌≡◌, refl,
  Bool, true, none, ◌∷◌, arith,
}
use zolt.Schema.{not_space, fits_varchar, Db, Job, Execution}
use zolt.Executions.Service.{
  error_message, guarded, close_attempt, settle, schedule_retry, fail_finally, ExecutionConfig,
  run_leased,
}
use zolt.Heartbeat.{put, has, register_execution}
use zolt.Monad.{calm, M, branch, Result, database_error, Env, err, World, running}
use zolt.Handlers.{Outcome, Handling}
use zolt.Executions.Repository.{has_id, fail_execution, failed_execution}

has-put : (k v : ℕ) (xs : List (ℕ × ℕ)) → has k (put k v xs) ≡ true
unfolding has put
has-put k v [] = ground arith
has-put k v (x ∷ xs) = ground (arith, has-put k v xs)

-- A world in which the next round trip fails.
abbrev pub failing : Db → Env → List Bool → World
failing d env faults = record { db = d; saved = none; env = record env { faults = true ∷ faults } }

-- If the query of the job fails right after the execution has been registered, the handler throws, and
-- the process goes on tracking the execution.
pub run_leased-tracked :
    (config : ExecutionConfig) (handle : Job → ℕ → Handling) (e : Execution) (worker : ℕ) (d : Db)
    (env : Env) (faults : List Bool)
    → ((run_leased config handle e worker (failing d env faults)).0 ≡ err database_error)
      × (has e.id (run_leased config handle e worker (failing d env faults)).1.env.active ≡ true)
unfolding run_leased register_execution running
run_leased-tracked config handle e worker d env faults = (refl, has-put e.id worker env.active)

abbrev LeavesUnclosed : (Db → Env → Result Bool × World) → Db → Env → Type 0
LeavesUnclosed m d env = ((m d env).0 ≡ err database_error) × ((m d env).1.db ≡ d)

retry_refused :
    (message : Text) (e : Execution) (j : Job) (k : Text) (d : Db) (env : Env)
    → leb (length message) 255 ≡ false
    → exists not_space (drop 255 message) ≡ true
    → exists (has_id e.id) d.executions ≡ true
    → LeavesUnclosed
        (λ d env. schedule_retry (failed_execution e.id message) e j k (calm d env))
        d
        env
unfolding schedule_retry guarded failed_execution fail_execution fits_varchar running
retry_refused message e j k d env long excess there = rw (long, excess, there) (refl, refl)

final_refused :
    (message : Text) (e : Execution) (j : Job) (d : Db) (env : Env)
    → leb (length message) 255 ≡ false
    → exists not_space (drop 255 message) ≡ true
    → exists (has_id e.id) d.executions ≡ true
    → LeavesUnclosed (λ d env. fail_finally (failed_execution e.id message) e j (calm d env)) d env
unfolding fail_finally guarded failed_execution fail_execution fits_varchar running
final_refused message e j d env long excess there = rw (long, excess, there) (refl, refl)

branch_case :
    (b : Bool) (m n : M Bool) (w : World)
    → ((m w).0 ≡ err database_error) × ((m w).1.db ≡ w.db)
    → ((n w).0 ≡ err database_error) × ((n w).1.db ≡ w.db)
    → ((branch b m n w).0 ≡ err database_error) × ((branch b m n w).1.db ≡ w.db)
unfolding branch
branch_case true m n w h g = h
branch_case false m n w h g = g

in_time : (timeout duration : ℕ) → duration < timeout → leb timeout duration ≡ false
in_time timeout duration h = ground arith

too_long : (p : ℕ → Bool) (n : ℕ) (t : Text) → exists p (drop n t) ≡ true → leb (length t) n ≡ false
unfolding exists
too_long p zero [] h = cc
too_long p zero (c ∷ t) h = ground arith
too_long p (suc n) [] h = cc
too_long p (suc n) (c ∷ t) h = ground (arith, too_long p n t h)

-- Where no round trip fails: if a handler rejects in time with a message that has a character other than a space behind its first 255
-- ones, its attempt cannot be closed, whether a retry is left or not: the statement is refused, the service throws, and the database is
-- what it was.
pub settle-long_message :
    (config : ExecutionConfig) (duration : ℕ) (message : Text) (e : Execution) (j : Job) (k : Text)
    (d : Db) (env : Env)
    → duration < config.timeout
    → exists not_space (drop 255 message) ≡ true
    → exists (has_id e.id) d.executions ≡ true
    → let r = settle config duration (Outcome.rejected (some message)) e j k (calm d env) in
      (r.0 ≡ err database_error) × (r.1.db ≡ d)
unfolding settle close_attempt error_message branch
settle-long_message config duration message e j k d env short excess there =
    rw (in_time config.timeout duration short) (
      branch_case (ltb e.attempt j.max_attempts) _ _ (calm d env)
        (retry_refused message e j k d env (too_long not_space 255 message excess) excess there)
        (final_refused message e j d env (too_long not_space 255 message excess) excess there))
