-- ===== src/Tests/Processes.antt =====
-- Timers and the ends of the processes.
use zolt.Prelude.{codes, text_eq, delete, contains, ◌≡◌, refl, true, false, none, some, [], ◌∷◌}
use zolt.Timers.{unset, stop, fires, start, on_heartbeat_events}
use zolt.Timers.Single.{on_heartbeat_events-IsSingle, IsSingle}
use zolt.Infrastructure.{metrics_reply}
use zolt.Queue.Ids.{starts_with, includes, is_duplicate_job_error}

-- A second start does nothing, and the cleared interval does not fire.
heartbeat_runs :
    on_heartbeat_events (start ∷ start ∷ fires 0 ∷ stop ∷ fires 0 ∷ []) unset
    ≡ record { current = none; live = []; next = 1; runs = 1 }
unfolding on_heartbeat_events contains delete
heartbeat_runs = refl

on_heartbeat_events-IsSingle_example :
    IsSingle (on_heartbeat_events (start ∷ start ∷ fires 0 ∷ stop ∷ start ∷ []) unset)
on_heartbeat_events-IsSingle_example =
    on_heartbeat_events-IsSingle (start ∷ start ∷ fires 0 ∷ stop ∷ start ∷ [])

-- The error of BullMQ for an id that is there, and another.
duplicate_known : is_duplicate_job_error (codes "Job job-1 already exists") ≡ true
unfolding is_duplicate_job_error includes starts_with
duplicate_known = refl

other_known : is_duplicate_job_error (codes "Connection is closed.") ≡ false
unfolding is_duplicate_job_error includes starts_with
other_known = refl

metrics_found : metrics_reply (some (codes "up 1")) (codes "/metrics") ≡ (200, codes "up 1")
unfolding metrics_reply text_eq
metrics_found = refl
