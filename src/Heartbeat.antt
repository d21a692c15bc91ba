-- ===== src/Heartbeat.antt =====
-- src/workers/heartbeat.ts: the executions that this process owns, and the renewal of their leases.
-- The gauge workerActiveExecutions is a field of the environment.
pub mod Gauge
use zolt.Prelude.{
  ℕ, suc, ◌+◌, ◌-◌, Bool, true, false, Option, none, some, List, [], ◌∷◌, ◌++◌, ◌==◌, if◌then◌else◌,
}
use zolt.Monad.{M, Env, pure, try_catch, set_env, ◌>>=◌, ◌>>◌, on_row}
use zolt.Leases.{renew_lease}

-- Map.has
unfoldable pub has : ℕ → List (ℕ × ℕ) → Bool
has k [] = false
has k (x ∷ xs) = let rest = has k xs in if x.0 == k then true else rest

-- Map.set: a new key goes to the end.
unfoldable pub put : ℕ → ℕ → List (ℕ × ℕ) → List (ℕ × ℕ)
put k v [] = (k, v) ∷ []
put k v (x ∷ xs) = let rest = put k v xs in if x.0 == k then (k, v) ∷ xs else x ∷ rest

-- Map.delete
unfoldable pub remove : ℕ → List (ℕ × ℕ) → List (ℕ × ℕ)
remove k [] = []
remove k (x ∷ xs) = let rest = remove k xs in if x.0 == k then xs else x ∷ rest

unfoldable pub register_execution : ℕ → ℕ → Env → Env
register_execution execution_id worker_id e = record e {
  active = put execution_id worker_id e.active;
  active_gauge = if has execution_id e.active then e.active_gauge else suc e.active_gauge;
}

unfoldable pub unregister_execution : ℕ → Env → Env
unregister_execution execution_id e = record e {
  active = remove execution_id e.active;
  active_gauge = if has execution_id e.active then e.active_gauge - 1 else e.active_gauge;
}

-- One turn of the loop; an error is logged and the lease stays tracked.
unfoldable pub renew_one : ℕ → ℕ × ℕ → M (Unit {0})
renew_one duration (execution_id, worker_id) =
    try_catch
      (do
        renewed ← renew_lease execution_id worker_id duration
        on_row renewed (set_env (unregister_execution execution_id)) (λ _. pure tt))
      (λ _. pure tt)

unfoldable pub renew_all : ℕ → List (ℕ × ℕ) → M (Unit {0})
unfolding renew_one
renew_all duration [] = pure tt
renew_all duration (x ∷ xs) = renew_one duration x >> renew_all duration xs

unfoldable pub renew_active_leases : ℕ → M (Unit {0})
unfolding renew_all
renew_active_leases duration w = renew_all duration w.env.active w
