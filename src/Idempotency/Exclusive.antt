-- ===== src/Idempotency/Exclusive.antt =====
-- Two claims of one key (src/modules/idempotency/idempotency.repository.ts).
use zolt.Prelude.{
  both, ℕ, ◌≡◌, refl, Bool, true, false, some, Text, text_eq, ◌&&◌, length, select_first,
  select_first-updated, select_first-test, update, updated, exists, arith, update-none,
  updated-none, exists-after,
}
use zolt.Schema.{Db, IdempotencyRecord, IdempotencyStatus, record_pending}
use zolt.Monad.{Env, calm, ok, running}
use zolt.Idempotency.{
  claimed, already_processing, claim_idempotency, claim_pending, keyed, moved_to, update_records,
  claim_state,
}

no_longer : (b : Bool) → (b && false) ≡ false
no_longer b = ground arith

-- The table after a claim of the key.
abbrev taken : Text → Db → ℕ → Db
taken k d now = record d {
  idempotency_records =
      update (keyed k record_pending) (moved_to IdempotencyStatus.processing (some now) now)
        d.idempotency_records;
}

pub claim-taken :
    (k : Text) (d : Db) (env : Env)
    → length (
        updated
          (keyed k record_pending)
          (moved_to IdempotencyStatus.processing (some env.now) env.now)
          d.idempotency_records)
      ≡ 1
    → claim_idempotency k (calm d env) ≡ (ok claimed, calm (taken k d env.now) env)
unfolding claim_idempotency claim_pending update_records running
claim-taken k d env one = rw (one) refl

-- No record of the key is PENDING: the claim writes nothing.
pub claim-refused :
    (k : Text) (d : Db) (env : Env) {r : IdempotencyRecord}
    → exists (keyed k record_pending) d.idempotency_records ≡ false
    → select_first (λ r. text_eq r.idempotency_key k) d.idempotency_records ≡ some r
    → claim_idempotency k (calm d env) ≡ (ok (claim_state r.status), calm d env)
unfolding claim_idempotency claim_pending update_records running
claim-refused k d env free found =
    rw
      (
        updated-none (keyed k record_pending)
            (moved_to IdempotencyStatus.processing (some env.now) env.now) d.idempotency_records
            free,
        update-none (keyed k record_pending)
            (moved_to IdempotencyStatus.processing (some env.now) env.now) d.idempotency_records
            free,
        found,
      )
      refl

-- Where no round trip fails: if one PENDING record has the key, the claim is granted, and until the record
-- is written again any other claim of the key, at any time, is told that it is being processed, and writes
-- nothing.
pub claim_idempotency-excludes :
    (k : Text) (t : ℕ) (d : Db) (env : Env) {r : IdempotencyRecord}
    → length (
        updated
          (keyed k record_pending)
          (moved_to IdempotencyStatus.processing (some env.now) env.now)
          d.idempotency_records)
      ≡ 1
    → select_first (λ r. text_eq r.idempotency_key k) d.idempotency_records ≡ some r
    → record_pending r.status ≡ true
    → (d' : Db) × (claim_idempotency k (calm d env) ≡ (ok claimed, calm d' env))
      × (claim_idempotency k (calm d' (record env { now = t }))
          ≡ (ok already_processing, calm d' (record env { now = t })))
claim_idempotency-excludes k t d env {r = r} one found free = (
  taken k d env.now,
  claim-taken k d env one,
  claim-refused k (taken k d env.now) (record env { now = t })
      (exists-after (keyed k record_pending)
        (moved_to IdempotencyStatus.processing (some env.now) env.now) d.idempotency_records
        (λ x. no_longer (text_eq x.idempotency_key k)))
      (select_first-updated (λ r. text_eq r.idempotency_key k) (keyed k record_pending)
        (moved_to IdempotencyStatus.processing (some env.now) env.now) d.idempotency_records
        (λ x. refl) found
        (both (text_eq r.idempotency_key k) (record_pending r.status)
          (select_first-test (λ r. text_eq r.idempotency_key k) d.idempotency_records found) free)),
)
