-- ===== src/Scheduler/Tick.antt =====
-- The errors of the parts of a tick, and its guard against a second tick at the same time
-- (src/modules/scheduler/scheduler.service.ts).
use zolt.Prelude.{ℕ, ◌≡◌, refl, Bool, true, false, not}
use zolt.Monad.{
  finally, World, M, Env, Result, ok, err, pure, try_catch, caught, continue, ◌>>=◌, ◌>>◌, branch,
  get_env, set_env,
}
use zolt.Queue.{Bullmq}
use zolt.Scheduler.Service.{end_tick, tick_parts, run_scheduler_tick, Locks, SchedulerConfig}
use zolt.Reconciliation.{process_queue_reconciliation}

abbrev IsOk : {A : Type 0} → Result A × World → Type 0
IsOk {A} r = (a : A) × (r.0 ≡ ok a)

record Total {A : Type 0} (m : M A) : Type 0 where
  never_throws : (w : World) → IsOk (m w)

caught-IsOk : {A : Type 0} (a : A) (r : Result A × World) → IsOk (caught (λ _. pure a) r)
unfolding pure
caught-IsOk a (ok b, w) = (b, refl)
caught-IsOk a (err e, w) = (a, refl)

logged-Total : {A : Type 0} (a : A) (m : M A) → Total (try_catch m (λ _. pure a))
unfolding try_catch
logged-Total a m = record { never_throws = λ w. caught-IsOk a (m w) }

continue-IsOk :
    {A B : Type 0} (k : A → M B) (r : Result A × World)
    → IsOk r
    → ((a : A) → Total (k a))
    → IsOk (continue k r)
continue-IsOk k (ok a, w) h g = (g a).never_throws w
continue-IsOk k (err e, w) (a, h) g = cc

bind-Total :
    {A B : Type 0} {m : M A} {k : A → M B} → Total m → ((a : A) → Total (k a)) → Total (m >>= k)
unfolding ◌>>=◌
bind-Total {m} {k} h g = record { never_throws = λ w. continue-IsOk k (m w) (h.never_throws w) g }

seq-Total : {A B : Type 0} {m : M A} {k : M B} → Total m → Total k → Total (m >> k)
unfolding ◌>>◌
seq-Total h g = bind-Total h (λ _. g)

pure-Total : {A : Type 0} (a : A) → Total (pure a)
unfolding pure
pure-Total a = record { never_throws = λ w. (a, refl) }

get_env-Total : {A : Type 0} (f : Env → A) → Total (get_env f)
unfolding get_env
get_env-Total f = record { never_throws = λ w. (f w.env, refl) }

set_env-Total : (f : Env → Env) → Total (set_env f)
unfolding set_env
set_env-Total f = record { never_throws = λ w. (tt, refl) }

branch-Total : {A : Type 0} (b : Bool) {m n : M A} → Total m → Total n → Total (branch b m n)
unfolding branch
branch-Total true h g = h
branch-Total false h g = g

ruleset total =
    (bind-Total, seq-Total, pure-Total, get_env-Total, set_env-Total, branch-Total, logged-Total)

module _ (bull : Bullmq) (config : SchedulerConfig) (locks : Locks) where
  reconciliation-Total :
      (batch min_age : ℕ) → Total (process_queue_reconciliation bull batch min_age)
  unfolding process_queue_reconciliation
  reconciliation-Total batch min_age = logged-Total 0 _

  tick_parts-Total : Total (tick_parts bull config locks)
  unfolding tick_parts
  tick_parts-Total = search (total, reconciliation-Total) depth 20

  finished :
      (r : Result (Unit {0}) × World)
      → IsOk r
      → let s = continue (λ _. pure true) (r.0, record (r.1) { env = end_tick r.1.env }) in
        (s.0 ≡ ok true) × (s.1.env.tick_in_flight ≡ false)
  unfolding pure
  finished (ok a, w) h = (refl, refl)
  finished (err e, w) (a, h) = cc

  tick_case :
      (b : Bool) (w : World)
      → w.env.tick_in_flight ≡ b
      → let s =
          branch b
            (pure false)
            (do
              set_env (λ e. record e { tick_in_flight = true })
              finally (tick_parts bull config locks) end_tick
              pure true)
            w in
        (s.0 ≡ ok (not b)) × (s.1.env.tick_in_flight ≡ b)
  unfolding branch pure set_env finally ◌>>=◌ ◌>>◌
  tick_case true w h = (refl, h)
  tick_case false w h =
      finished
        (tick_parts bull config locks (record w { env = record (w.env) { tick_in_flight = true } }))
        (tick_parts-Total.never_throws _)

  -- A tick never throws, whatever round trips or queue calls fail: it says whether it ran, which it does
  -- unless a tick is in flight, and the flag of the running tick is afterwards what it was before.
  pub run_scheduler_tick-guard :
      (w : World)
      → ((run_scheduler_tick bull config locks w).0 ≡ ok (not w.env.tick_in_flight))
        × ((run_scheduler_tick bull config locks w).1.env.tick_in_flight ≡ w.env.tick_in_flight)
  unfolding run_scheduler_tick get_env ◌>>=◌
  run_scheduler_tick-guard w = tick_case w.env.tick_in_flight w refl
