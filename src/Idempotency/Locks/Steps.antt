-- ===== src/Idempotency/Locks/Steps.antt =====
-- Each operation of src/modules/idempotency/idempotency.repository.ts does what its lock does.
use zolt.Prelude.{
  update-none, updated-none, ℕ, ◌≡◌, refl, ap, ◌∙◌, Bool, true, false, Option, none, some, Text,
  length, select_first, updated, exists, Option-cases, inl, inr,
}
use zolt.Schema.{Db, IdempotencyRecord, IdempotencyStatus, record_pending, record_processing}
use zolt.Monad.{
  Sql, Failure, Env, Result, ok, err, calm, running, app_error, idempotency_key_missing,
  unable_to_complete, unable_to_reset,
}
use zolt.Idempotency.{
  Sql, ClaimResult, claimed, already_processing, already_completed, claim_idempotency,
  complete_idempotency, reset_to_pending, claim_pending, complete_processing, reset_processing,
  keyed, moved_to, update_records,
}
use zolt.Idempotency.Exclusive.{claim-refused, claim-taken}
use zolt.Idempotency.Locks.{
  release_lock, put, reset, on_locks, complete, perform, of_key, locks_of, claim, Call, UniqueKeys,
}
use zolt.Idempotency.Locks.Rows.{
  update-UniqueKeys, locks_of-moved, no_hit, moved, absent_hit, one_hit,
}

-- The repository does what the locks do, and keeps the keys unique.
abbrev pub Refined : Call → Db → Env → Type 0
Refined c d env =
    (d' : Db) × (perform c (calm d env) ≡ ((on_locks c (locks_of d)).0, calm d' env))
    × (locks_of d' ≡ (on_locks c (locks_of d)).1)
    × UniqueKeys d'.idempotency_records

moved-Refined :
    (c : Call) (k : Text) (from : IdempotencyStatus → Bool) (s : IdempotencyStatus)
    (started : Option ℕ) (d : Db) (env : Env) {r : IdempotencyRecord}
    (a : Result (Option ClaimResult))
    → UniqueKeys d.idempotency_records
    → select_first (of_key k) d.idempotency_records ≡ some r
    → from r.status ≡ true
    → perform c (calm d env) ≡ (a, calm (moved k from s started env.now d) env)
    → on_locks c (locks_of d) ≡ (a, put k s (locks_of d))
    → Refined c d env
moved-Refined c k from s started d env {r = r} a u h g p l = (
  moved k from s started env.now d,
  rw l p,
  rw l (locks_of-moved k from s started env.now d h g),
  update-UniqueKeys k from (moved_to s started env.now) d.idempotency_records (λ x. refl) u,
)

same-Refined :
    (c : Call) (d : Db) (env : Env) (a : Result (Option ClaimResult))
    → UniqueKeys d.idempotency_records
    → perform c (calm d env) ≡ (a, calm d env)
    → on_locks c (locks_of d) ≡ (a, locks_of d)
    → Refined c d env
same-Refined c d env a u p l = (d, rw l p, rw l refl, u)

unique_hit :
    (k : Text) (from : IdempotencyStatus → Bool) (s : IdempotencyStatus) (started : Option ℕ)
    (now : ℕ) (d : Db) {r : IdempotencyRecord}
    → UniqueKeys d.idempotency_records
    → select_first (of_key k) d.idempotency_records ≡ some r
    → from r.status ≡ true
    → length (updated (keyed k from) (moved_to s started now) d.idempotency_records) ≡ 1
unique_hit k from s started now d {r = r} u h g =
    one_hit k from (moved_to s started now) d.idempotency_records u h g

module _ (k : Text) (d : Db) (env : Env) (u : UniqueKeys d.idempotency_records) where
  -- An UPDATE that hits no row.
  missed :
      (from : IdempotencyStatus → Bool) (s : IdempotencyStatus) (started : Option ℕ)
      → exists (keyed k from) d.idempotency_records ≡ false
      → update_records (keyed k from) (moved_to s started env.now) d ≡ some (0, d)
  unfolding update_records
  missed from s started free =
      rw
        (
          updated-none (keyed k from) (moved_to s started env.now) d.idempotency_records free,
          update-none (keyed k from) (moved_to s started env.now) d.idempotency_records free,
        )
        refl

  hit :
      (from : IdempotencyStatus → Bool) (s : IdempotencyStatus) (started : Option ℕ)
      {r : IdempotencyRecord}
      → select_first (of_key k) d.idempotency_records ≡ some r
      → from r.status ≡ true
      → update_records (keyed k from) (moved_to s started env.now) d
        ≡ some (1, moved k from s started env.now d)
  unfolding update_records
  hit from s started {r = r} h g = rw (unique_hit k from s started env.now d u h g) refl

  locked :
      {r : IdempotencyRecord} (s : IdempotencyStatus)
      → select_first (of_key k) d.idempotency_records ≡ some r
      → r.status ≡ s
      → locks_of d k ≡ some s
  unfolding locks_of
  locked s h e = rw (h, e) refl

  claim_held :
      (r : IdempotencyRecord) (s : IdempotencyStatus)
      → select_first (of_key k) d.idempotency_records ≡ some r
      → r.status ≡ s
      → Refined (claim k) d env
  unfolding perform on_locks running
  claim_held r IdempotencyStatus.pending h e =
      moved-Refined (claim k) k record_pending IdempotencyStatus.processing (some env.now) d env
        (ok (some claimed)) u h (rw e refl)
        (rw
          (claim-taken k d env (
            unique_hit k record_pending IdempotencyStatus.processing (some env.now) env.now d u h
              (rw e refl)))
          refl)
        (rw (locked IdempotencyStatus.pending h e) refl)
  claim_held r IdempotencyStatus.processing h e =
      same-Refined (claim k) d env (ok (some already_processing)) u
        (rw
          (
            claim-refused k d env (no_hit k record_pending d.idempotency_records u h (rw e refl)) h,
            e,
          )
          refl)
        (rw (locked IdempotencyStatus.processing h e) refl)
  claim_held r IdempotencyStatus.completed h e =
      same-Refined (claim k) d env (ok (some already_completed)) u
        (rw
          (
            claim-refused k d env (no_hit k record_pending d.idempotency_records u h (rw e refl)) h,
            e,
          )
          refl)
        (rw (locked IdempotencyStatus.completed h e) refl)

  claim_statement :
      claim_pending k env.now d
      ≡ update_records
          (keyed k record_pending)
          (moved_to IdempotencyStatus.processing (some env.now) env.now)
          d
  unfolding claim_pending
  claim_statement = refl

  claim_absent : select_first (of_key k) d.idempotency_records ≡ none → Refined (claim k) d env
  unfolding perform on_locks running claim_idempotency locks_of
  claim_absent h =
      same-Refined (claim k) d env (err (app_error (idempotency_key_missing k) 500)) u
        (rw
          (
            claim_statement
                ∙ missed record_pending IdempotencyStatus.processing (some env.now)
                    (absent_hit k record_pending d.idempotency_records h),
            h,
          )
          refl)
        (rw h refl)

  claim-Refined : Refined (claim k) d env
  claim-Refined = elim (Option-cases (select_first (of_key k) d.idempotency_records)) [
    | inl h ↦ claim_absent h
    | inr (r, h) ↦ claim_held r r.status h refl
  ]

  -- The two operations that a PROCESSING key answers to.
  module _ (c : Call) (s : IdempotencyStatus) (e : Failure) (statement : Sql ℕ)
      (updates : statement env.now d
        ≡ update_records (keyed k record_processing) (moved_to s none env.now) d)
      (hits : statement env.now d ≡ some (1, moved k record_processing s none env.now d)
        → perform c (calm d env) ≡ (ok none, calm (moved k record_processing s none env.now d) env))
      (misses : statement env.now d ≡ some (0, d) → perform c (calm d env) ≡ (err e, calm d env))
      (locks : on_locks c (locks_of d) ≡ release_lock k s e (locks_of d k) (locks_of d)) where
    not_held :
        (o : Option IdempotencyStatus)
        → locks_of d k ≡ o
        → release_lock k s e o (locks_of d) ≡ (err e, locks_of d)
        → exists (keyed k record_processing) d.idempotency_records ≡ false
        → Refined c d env
    not_held o l out free =
        same-Refined c d env (err e) u (misses (updates ∙ missed record_processing s none free))
          (locks ∙ ap (λ x. release_lock k s e x (locks_of d)) l ∙ out)

    held :
        (r : IdempotencyRecord) (t : IdempotencyStatus)
        → select_first (of_key k) d.idempotency_records ≡ some r
        → r.status ≡ t
        → Refined c d env
    held r IdempotencyStatus.pending h g =
        not_held (some IdempotencyStatus.pending) (locked IdempotencyStatus.pending h g) refl
          (no_hit k record_processing d.idempotency_records u h (rw g refl))
    held r IdempotencyStatus.processing h g =
        moved-Refined c k record_processing s none d env (ok none) u h (rw g refl)
          (hits (updates ∙ hit record_processing s none h (rw g refl)))
          (locks
            ∙ ap (λ x. release_lock k s e x (locks_of d)) (locked IdempotencyStatus.processing h g))
    held r IdempotencyStatus.completed h g =
        not_held (some IdempotencyStatus.completed) (locked IdempotencyStatus.completed h g) refl
          (no_hit k record_processing d.idempotency_records u h (rw g refl))

    release-Refined : Refined c d env
    unfolding locks_of
    release-Refined = elim (Option-cases (select_first (of_key k) d.idempotency_records)) [
      | inl h ↦
          not_held none (rw h refl) refl (absent_hit k record_processing d.idempotency_records h)
      | inr (r, h) ↦ held r r.status h refl
    ]

  complete_statement :
      complete_processing k env.now d
      ≡ update_records
          (keyed k record_processing)
          (moved_to IdempotencyStatus.completed none env.now)
          d
  unfolding complete_processing
  complete_statement = refl

  reset_statement :
      reset_processing k env.now d
      ≡ update_records
          (keyed k record_processing)
          (moved_to IdempotencyStatus.pending none env.now)
          d
  unfolding reset_processing
  reset_statement = refl

  complete-Refined : Refined (complete k) d env
  unfolding perform on_locks running complete_idempotency
  complete-Refined =
      release-Refined (complete k) IdempotencyStatus.completed
        (app_error (unable_to_complete k) 500) (complete_processing k) complete_statement
        (λ h. rw h refl) (λ h. rw h refl) refl

  reset-Refined : Refined (reset k) d env
  unfolding perform on_locks running reset_to_pending
  reset-Refined =
      release-Refined (reset k) IdempotencyStatus.pending (app_error (unable_to_reset k) 500)
        (reset_processing k) reset_statement (λ h. rw h refl) (λ h. rw h refl) refl

pub perform-Refined :
    (c : Call) (d : Db) (env : Env) → UniqueKeys d.idempotency_records → Refined c d env
perform-Refined (claim k) d env u = claim-Refined k d env u
perform-Refined (complete k) d env u = complete-Refined k d env u
perform-Refined (reset k) d env u = reset-Refined k d env u
