-- ===== src/Idempotency/Locks/Runs.antt =====
-- The refinement of the locks over any calls.
use zolt.Prelude.{ℕ, ◌≡◌, refl, ap, ◌∙◌, List, [], ◌∷◌}
use zolt.Schema.{Db}
use zolt.Monad.{Env, calm}
use zolt.Idempotency.Locks.{locks_of, UniqueKeys, Call, replay, run_calls}
use zolt.Idempotency.Locks.Steps.{perform-Refined}

-- Where no round trip fails and no two records have one key, any calls at any times are answered as the
-- locks answer them, and end in a table that reads as the locks then are, again with one record to a key.
pub run_calls-replay :
    (calls : List (ℕ × Call)) (d : Db) (env : Env)
    → UniqueKeys d.idempotency_records
    → (d' : Db) × (env' : Env) × (run_calls calls (calm d env)
        ≡ ((replay calls (locks_of d)).0, calm d' env'))
      × (locks_of d' ≡ (replay calls (locks_of d)).1)
      × UniqueKeys d'.idempotency_records
unfolding run_calls replay
run_calls-replay [] d env u = (d, env, refl, refl, u)
run_calls-replay ((t, c) ∷ cs) d env u =
    let (d1, done, same, u1) = perform-Refined c d (record env { now = t }) u in
    let (d2, env2, rest, end, u2) = run_calls-replay cs d1 (record env { now = t }) u1 in
    (d2, env2, rw (done, rest, same) refl, end ∙ ap (λ locks. (replay cs locks).1) same, u2)
