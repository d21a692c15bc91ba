-- ===== src/Processes/Ends.antt =====
-- How the processes of src/app end.
use zolt.Prelude.{
  ◌++◌, ap, subst, arith, ◌≡◌, refl, Bool, true, false, ◌&&◌, if◌then◌else◌, none, some, List, [],
  ◌∷◌,
}
use zolt.Timers.{stop_scheduler, Timers}
use zolt.Timers.Single.{cleared, IsSingle}
use zolt.Processes.{
  Startup, stop_scheduler, ProcessCall, close_metrics_server, attempt, exit_of, start_server,
  shutdown_scheduler, startup_calls, resource_calls,
}

-- Whether all calls of a list settle well.
abbrev pub all_settle : (ProcessCall → Bool) → List ProcessCall → Bool
all_settle settles [] = true
all_settle settles (c ∷ cs) = settles c && all_settle settles cs

attempt-succeeds :
    (settles : ProcessCall → Bool) (cs : List ProcessCall)
    → (attempt settles cs).succeeds ≡ all_settle settles cs
unfolding attempt
attempt-succeeds settles [] = refl
attempt-succeeds settles (c ∷ cs) = ground (arith, attempt-succeeds settles cs)

serves_if :
    (b : Bool) (calls later : List ProcessCall)
    → let s : Startup =
        if b
        then record { calls = calls; serving = true; exit_code = none }
        else record { calls = calls ++ later; serving = false; exit_code = some 1 } in
      (s.serving ≡ b) × (s.exit_code ≡ (if b then none else some 1))
serves_if true calls later = (refl, refl)
serves_if false calls later = (refl, refl)

-- The API process serves just if its startup calls all settle well, and otherwise ends with the code 1.
pub start_server-serves :
    (settles : ProcessCall → Bool)
    → ((start_server settles).serving ≡ all_settle settles startup_calls)
      × ((start_server settles).exit_code
          ≡ (if all_settle settles startup_calls then none else some 1))
unfolding start_server
start_server-serves settles =
    subst
      (λ b.
        ((start_server settles).serving ≡ b)
        × ((start_server settles).exit_code ≡ (if b then none else some 1)))
      (attempt-succeeds settles startup_calls)
      (serves_if (attempt settles startup_calls).succeeds _ _)

-- A signal stops the timer of the scheduler, whatever fails, and its process ends with the code 0 just if all
-- closing calls settle well.
pub shutdown_scheduler-ends :
    (settles : ProcessCall → Bool) (t : Timers)
    → IsSingle t
    → ((shutdown_scheduler settles t).timers.live ≡ [])
      × ((shutdown_scheduler settles t).exit_code
          ≡ exit_of (all_settle settles (close_metrics_server ∷ resource_calls)))
unfolding shutdown_scheduler stop_scheduler
shutdown_scheduler-ends settles t h = (
  cleared t.current t.live t.next t.runs h.live,
  ap exit_of (attempt-succeeds settles (close_metrics_server ∷ resource_calls)),
)
