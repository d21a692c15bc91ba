-- ===== src/Http/InFlight.antt =====
-- src/middleware/metrics.middleware.ts: the gauge of the requests in flight and the counter of the completed
-- ones, over the events of all requests. The labels are left out, and the timer of the histogram, which is
-- observed where the counter is incremented.
pub mod Gauge
use zolt.Prelude.{
  ℕ, zero, suc, ◌+◌, ◌-◌, Bool, true, false, List, [], ◌∷◌, ◌++◌, Text, text_eq, codes,
  if◌then◌else◌,
}

-- httpRequestsInFlight and httpRequestsTotal, and the variable `finalized` of every request that is tracked.
pub record HttpMetrics : Type 0 where
  pub in_flight : ℕ
  pub completed : ℕ
  pub finalized : List Bool

-- A request comes in with its path, or the response of the n-th tracked request emits `finish` or `close`,
-- with its writableFinished at that moment.
pub data HttpEvent : Type 0 where
  arrives : Text → HttpEvent
  settles : ℕ → Bool → HttpEvent

unfoldable pub is_final : ℕ → List Bool → Bool
is_final n [] = true
is_final zero (b ∷ bs) = b
is_final (suc n) (b ∷ bs) = is_final n bs

unfoldable pub set_final : ℕ → List Bool → List Bool
set_final n [] = []
set_final zero (b ∷ bs) = true ∷ bs
set_final (suc n) (b ∷ bs) = b ∷ set_final n bs

unfoldable pub track_request : Text → HttpMetrics → HttpMetrics
track_request path m =
    if text_eq path (codes "/metrics")
    then m
    else record m { in_flight = suc m.in_flight; finalized = m.finalized ++ (false ∷ []) }

unfoldable pub finalize : ℕ → Bool → HttpMetrics → HttpMetrics
unfolding is_final set_final
finalize n writable_finished m = if is_final n m.finalized then m else record {
  in_flight = m.in_flight - 1;
  completed = if writable_finished then suc m.completed else m.completed;
  finalized = set_final n m.finalized;
}

unfoldable pub on_event : HttpEvent → HttpMetrics → HttpMetrics
unfolding track_request finalize
on_event (arrives path) m = track_request path m
on_event (settles n writable_finished) m = finalize n writable_finished m

unfoldable pub on_events : List HttpEvent → HttpMetrics → HttpMetrics
unfolding on_event
on_events [] m = m
on_events (e ∷ es) m = on_events es (on_event e m)

abbrev pub no_requests : HttpMetrics
no_requests = record { in_flight = 0; completed = 0; finalized = [] }
