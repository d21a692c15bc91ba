-- ===== src/Heartbeat/Gauge.antt =====
-- The gauge workerActiveExecutions of src/workers/heartbeat.ts and the map of the tracked executions.
use zolt.Prelude.{ℕ, suc, ◌≡◌, refl, List, [], ◌∷◌, length, arith, if◌then◌else◌}
use zolt.Monad.{Env}
use zolt.Heartbeat.{has, put, remove, register_execution, unregister_execution}

length-put :
    (k v : ℕ) (xs : List (ℕ × ℕ))
    → length (put k v xs) ≡ (if has k xs then length xs else suc (length xs))
unfolding put has
length-put k v [] = refl
length-put k v (x ∷ xs) = ground (arith, length-put k v xs)

length-remove :
    (k : ℕ) (xs : List (ℕ × ℕ))
    → (if has k xs then suc (length (remove k xs)) else length (remove k xs)) ≡ length xs
unfolding remove has
length-remove k [] = refl
length-remove k (x ∷ xs) = ground (arith, length-remove k xs)

-- The gauge holds the number of the tracked executions.
abbrev pub CountsActive : Env → Type 0
CountsActive e = e.active_gauge ≡ length e.active

pub register_execution-CountsActive :
    (execution_id worker_id : ℕ) (e : Env)
    → CountsActive e
    → CountsActive (register_execution execution_id worker_id e)
unfolding register_execution
register_execution-CountsActive k v e h = ground (arith, length-put k v e.active)

pub unregister_execution-CountsActive :
    (execution_id : ℕ) (e : Env)
    → CountsActive e
    → CountsActive (unregister_execution execution_id e)
unfolding unregister_execution
unregister_execution-CountsActive k e h = ground (arith, length-remove k e.active)
