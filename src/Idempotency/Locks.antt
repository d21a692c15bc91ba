-- ===== src/Idempotency/Locks.antt =====
-- What the idempotency records promise (src/modules/idempotency/idempotency.repository.ts): each key is a lock
-- that is taken, given back or closed for good. The statements on the table do what the locks do.
pub mod Rows
pub mod Steps
pub mod Runs
use zolt.Prelude.{
  both, update-none, select_first-updated, select_first-update, select_first-test, updated-none,
  exists-update, ℕ, ◌≡◌, refl, sym, ap, ◌∙◌, Bool, true, false, ◌&&◌, if◌then◌else◌, Option, none,
  some, List, [], ◌∷◌, Text, text_eq, text_eq→eq, text_eq_refl, length, map, map_row, select_first,
  update, updated, exists, Bool-cases, Option-cases, inl, inr, arith, fun_ext,
}
use zolt.Schema.{Db, IdempotencyRecord, IdempotencyStatus, record_pending, record_processing}
use zolt.Monad.{
  Sql, Failure, Env, World, M, Result, ok, err, calm, running, pure, ◌>>=◌, ◌>>◌, app_error,
  idempotency_key_missing, unable_to_complete, unable_to_reset,
}
use zolt.Idempotency.{
  Sql, ClaimResult, claimed, already_processing, already_completed, claim_idempotency,
  complete_idempotency, reset_to_pending, claim_pending, complete_processing, reset_processing,
  keyed, moved_to, update_records, claim_state,
}
use zolt.Idempotency.Exclusive.{claim-refused, claim-taken}

-- The state of each key that has a record.
abbrev pub Locks : Type 0
Locks = Text → Option IdempotencyStatus

pub data Call : Type 0 where
  claim complete reset : Text → Call

abbrev pub put : Text → IdempotencyStatus → Locks → Locks
put k s locks k' = if text_eq k' k then some s else locks k'

abbrev pub claim_lock :
    Text → Option IdempotencyStatus → Locks → Result (Option ClaimResult) × Locks
claim_lock k none locks = (err (app_error (idempotency_key_missing k) 500), locks)
claim_lock k (some IdempotencyStatus.pending) locks =
    (ok (some claimed), put k IdempotencyStatus.processing locks)
claim_lock k (some IdempotencyStatus.processing) locks = (ok (some already_processing), locks)
claim_lock k (some IdempotencyStatus.completed) locks = (ok (some already_completed), locks)

-- A key that is PROCESSING goes on to another status, and any other is refused.
abbrev pub release_lock :
    Text
    → IdempotencyStatus
    → Failure
    → Option IdempotencyStatus
    → Locks
    → Result (Option ClaimResult) × Locks
release_lock k s e (some IdempotencyStatus.processing) locks = (ok none, put k s locks)
release_lock k s e _ locks = (err e, locks)

-- The abstract operations.
unfoldable pub on_locks : Call → Locks → Result (Option ClaimResult) × Locks
on_locks (claim k) locks = claim_lock k (locks k) locks
on_locks (complete k) locks =
    release_lock k IdempotencyStatus.completed (app_error (unable_to_complete k) 500) (locks k)
      locks
on_locks (reset k) locks =
    release_lock k IdempotencyStatus.pending (app_error (unable_to_reset k) 500) (locks k) locks

-- The operations of the repository.
unfoldable pub perform : Call → M (Option ClaimResult)
perform (claim k) = do result ← claim_idempotency k; pure (some result)
perform (complete k) = complete_idempotency k >> pure none
perform (reset k) = reset_to_pending k >> pure none

abbrev pub of_key : Text → IdempotencyRecord → Bool
of_key k r = text_eq r.idempotency_key k

abbrev pub status_of : IdempotencyRecord → IdempotencyStatus
status_of r = r.status

unfoldable pub locks_of : Db → Locks
locks_of d k = map_row status_of (select_first (of_key k) d.idempotency_records)

-- The unique constraint of the column.
abbrev pub UniqueKeys : List IdempotencyRecord → Type 0
UniqueKeys [] = Unit
UniqueKeys (r ∷ rs) = (exists (of_key r.idempotency_key) rs ≡ false) × UniqueKeys rs

abbrev pub at_time : ℕ → World → World
at_time t w = record w { env = record (w.env) { now = t } }

-- Calls one after the other, each at its own time.
unfoldable pub run_calls : List (ℕ × Call) → World → List (Result (Option ClaimResult)) × World
unfolding perform
run_calls [] w = ([], w)
run_calls ((t, c) ∷ cs) w =
    let step = perform c (at_time t w) in
    let rest = run_calls cs step.1 in (step.0 ∷ rest.0, rest.1)

-- The same calls on the locks.
unfoldable pub replay : List (ℕ × Call) → Locks → List (Result (Option ClaimResult)) × Locks
unfolding on_locks
replay [] locks = ([], locks)
replay ((t, c) ∷ cs) locks =
    let step = on_locks c locks in let rest = replay cs step.1 in (step.0 ∷ rest.0, rest.1)
