-- ===== src/Tests/Locks.antt =====
-- Calls on the record of a key, and the refinement of the locks applied to them.
use zolt.Prelude.{
  exists, select_first, text_eq, ℕ, ◌≡◌, refl, List, [], ◌∷◌, none, some, codes, Text,
}
use zolt.Idempotency.Locks.{UniqueKeys, complete, reset, run_calls, claim, locks_of, Call, replay}
use zolt.Schema.{Db}
use zolt.Monad.{idempotency_key_missing, app_error, err, ok, calm, Env}
use zolt.Tests.Data.{env_at, due_db}
use zolt.Idempotency.{already_completed, already_processing, claimed}
use zolt.Idempotency.Locks.Runs.{run_calls-replay}

abbrev welcome : Text
welcome = codes "welcome-1"

-- Two claims, a reset, a claim, a completion, a claim, and a claim of a key that has no record.
abbrev calls : List (ℕ × Call)
calls =
    (110, claim welcome)
    ∷ (120, claim welcome)
    ∷ (130, reset welcome)
    ∷ (140, claim welcome)
    ∷ (150, complete welcome)
    ∷ (160, claim welcome)
    ∷ (170, claim (codes "other"))
    ∷ []

answers :
    (replay calls (locks_of due_db)).0
    ≡ ok (some claimed)
      ∷ ok (some already_processing)
      ∷ ok none
      ∷ ok (some claimed)
      ∷ ok none
      ∷ ok (some already_completed)
      ∷ err (app_error (idempotency_key_missing (codes "other")) 500)
      ∷ []
unfolding replay locks_of text_eq select_first
answers = refl

one_record : UniqueKeys due_db.idempotency_records
unfolding exists
one_record = (refl, tt)

run_calls-replay_example :
    (d' : Db) × (env' : Env) × (run_calls calls (calm due_db (env_at 100))
      ≡ ((replay calls (locks_of due_db)).0, calm d' env'))
    × (locks_of d' ≡ (replay calls (locks_of due_db)).1)
    × UniqueKeys d'.idempotency_records
run_calls-replay_example = run_calls-replay calls due_db (env_at 100) one_record
