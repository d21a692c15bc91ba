-- ===== src/Balance/Rules.antt =====
-- A handler that gives back the connections it takes from the pool (pool.connect and client.release)
-- and keeps the gauge of src/workers/heartbeat.ts in step with the map of the owned executions: the
-- rules that prove it from the parts of the handler.
use zolt.Prelude.{◌∙◌, if◌then◌else◌, ℕ, ◌≡◌, refl, Bool, true, false, Option, none, some, arith}
use zolt.Schema.{Db}
use zolt.Monad.{
  rest_faults, World, M, Env, Result, ok, err, Sql, Failure, connected, round_trip, next_fault,
  begun, ended, outcome, rolled_back, look, run_statement, release, with_client, connect, finally,
  continue, committed,
}
use zolt.Monad
use zolt.Monad.Preserves.{Preserves}
use zolt.Monad.Preserves
use zolt.Heartbeat.Gauge.{CountsActive}

pub record Tidy (d e : Env) : Type 0 where
  pub same_connections : e.connections ≡ d.connections
  pub counts : CountsActive d → CountsActive e

abbrev pub Tidily : World → World → Type 0
Tidily u v = Tidy u.env v.env

pub record Balanced {A : Type 0} (m : M A) : Type 0 where
  pub run : Preserves Tidily m

-- A change of the memory of the process that keeps both.
pub record Keeps (f : Env → Env) : Type 0 where
  pub keeps : (e : Env) → Tidy e (f e)

pub tidy_here : (w : World) → Tidily w w
tidy_here w = record { same_connections = refl; counts = λ h. h }

tidy_then : (u v w : World) → Tidily u v → Tidily v w → Tidily u w
tidy_then u v w h g = record {
  same_connections = g.same_connections ∙ h.same_connections;
  counts = λ c. g.counts (h.counts c);
}

pub pure-Balanced : {A : Type 0} (a : A) → Balanced (Monad.pure a)
pure-Balanced a = record { run = Preserves.pure-Preserves Tidily tidy_here tidy_then a }

pub throw-Balanced : {A : Type 0} (e : Failure) → Balanced (Monad.throw {A = A} e)
throw-Balanced {A} e = record { run = Preserves.throw-Preserves Tidily tidy_here tidy_then A e }

pub get_env-Balanced : {A : Type 0} (f : Env → A) → Balanced (Monad.get_env f)
get_env-Balanced f = record { run = Preserves.get_env-Preserves Tidily tidy_here tidy_then f }

pub field-Balanced : {A : Type 0} (o : Option A) → Balanced (Monad.field o)
field-Balanced o = record { run = Preserves.field-Preserves Tidily tidy_here tidy_then o }

pub bind-Balanced :
    {A B : Type 0} {m : M A} {k : A → M B}
    → Balanced m
    → ((a : A) → Balanced (k a))
    → Balanced (Monad.◌>>=◌ m k)
bind-Balanced {m} {k} h g = record {
  run = Preserves.bind-Preserves Tidily tidy_here tidy_then m k h.run (λ a. (g a).run);
}

pub seq-Balanced :
    {A B : Type 0} {m : M A} {k : M B} → Balanced m → Balanced k → Balanced (Monad.◌>>◌ m k)
seq-Balanced {m} {k} h g = record {
  run = Preserves.seq-Preserves Tidily tidy_here tidy_then m k h.run g.run;
}

pub try_catch-Balanced :
    {A : Type 0} {m : M A} {k : Failure → M A}
    → Balanced m
    → ((e : Failure) → Balanced (k e))
    → Balanced (Monad.try_catch m k)
try_catch-Balanced {m} {k} h g = record {
  run = Preserves.try_catch-Preserves Tidily tidy_here tidy_then m k h.run (λ e. (g e).run);
}

pub on_row-Balanced :
    {A B : Type 0} (o : Option A) {m : M B} {k : A → M B}
    → Balanced m
    → ((a : A) → Balanced (k a))
    → Balanced (Monad.on_row o m k)
on_row-Balanced o {m} {k} h g = record {
  run = Preserves.on_row-Preserves Tidily tidy_here tidy_then o m k h.run (λ a. (g a).run);
}

pub branch-Balanced :
    {A : Type 0} (b : Bool) {m n : M A} → Balanced m → Balanced n → Balanced (Monad.branch b m n)
branch-Balanced b {m} {n} h g = record {
  run = Preserves.branch-Preserves Tidily tidy_here tidy_then b m n h.run g.run;
}

pub set_env-Balanced : (f : Env → Env) → Keeps f → Balanced (Monad.set_env f)
unfolding Monad.set_env
set_env-Balanced f h = record { run = λ w. h.keeps w.env }

-- A round trip changes the memory of the process only where the server's answer does.
abbrev dropped : World → World
dropped w = record w { env = record (w.env) { faults = rest_faults w.env.faults } }

fault_case :
    {A : Type 0} (done : World → Result A × World) (b : Bool) (w : World)
    → ((w : World) → Tidily w (done w).1)
    → Tidily w (if b then (err Monad.database_error, dropped w) else done (dropped w)).1
fault_case done true w h = record { same_connections = refl; counts = λ c. c }
fault_case done false w h = record {
  same_connections = (h (dropped w)).same_connections;
  counts = (h (dropped w)).counts;
}

round_trip-Balanced :
    {A : Type 0} (done : World → Result A × World)
    → ((w : World) → Tidily w (done w).1)
    → Balanced (Monad.round_trip done)
unfolding round_trip
round_trip-Balanced done h = record { run = λ w. fault_case done (next_fault w.env.faults) w h }

outcome_case : {A : Type 0} (w : World) (o : Option (A × Db)) → Tidily w (outcome w o).1
outcome_case w none = tidy_here w
outcome_case w (some (a, d)) = record { same_connections = refl; counts = λ c. c }

pub query-Balanced : {A : Type 0} (s : Sql A) → Balanced (Monad.query s)
unfolding Monad.query
query-Balanced s = round_trip-Balanced (run_statement s) (λ w. outcome_case w (s w.env.now w.db))

pub read-Balanced : {A : Type 0} (f : ℕ → Db → A) → Balanced (Monad.read f)
unfolding Monad.read
read-Balanced f = round_trip-Balanced (look (λ w. f w.env.now w.db)) tidy_here

pub read_committed-Balanced : {A : Type 0} (f : Db → A) → Balanced (Monad.read_committed f)
unfolding Monad.read_committed
read_committed-Balanced f = round_trip-Balanced (look (λ w. f (committed w.saved w.db))) tidy_here

pub begin-Balanced : Balanced Monad.begin
unfolding Monad.begin
begin-Balanced =
    round_trip-Balanced begun (λ w. record { same_connections = refl; counts = λ c. c })

commit_case :
    (b : Bool) (w : World)
    → Tidily w
        (if b then round_trip Monad.unconfirmed (Monad.dropped w) else ended (Monad.dropped w)).1
commit_case false w = record { same_connections = refl; counts = λ c. c }
commit_case true w =
    let t =
      (round_trip-Balanced Monad.unconfirmed
          (λ w. record { same_connections = refl; counts = λ c. c })).run
        (Monad.dropped w) in
    record { same_connections = t.same_connections; counts = t.counts }

pub commit-Balanced : Balanced Monad.commit
unfolding Monad.commit
commit-Balanced = record { run = λ w. commit_case (next_fault w.env.faults) w }

pub rollback-Balanced : Balanced Monad.rollback
unfolding Monad.rollback
rollback-Balanced = record {
  run = λ w. (round_trip-Balanced (look (λ _. tt)) tidy_here).run (rolled_back w);
}

-- What was taken is released, however the body ends.
released :
    {A : Type 0} (u v : World) (r : Result A × World)
    → u.env.connections ≡ v.env.connections
    → (CountsActive u.env → CountsActive v.env)
    → Tidily (connected v).1 r.1
    → Tidily u (record (r.1) { env = release (r.1).env })
released u v (r, w) same counts h = record {
  same_connections = ground (arith, h.same_connections);
  counts = λ c. h.counts (counts c);
}

with_client_case :
    {A : Type 0} (m : M A) (b : Bool) (w : World)
    → Balanced m
    → Tidily w
        (continue
          (λ _. finally m release)
          (if b then (err Monad.database_error, dropped w) else connected (dropped w))).1
unfolding finally
with_client_case m true w h = record { same_connections = refl; counts = λ c. c }
with_client_case {A} m false w h =
    released {A = A} w (dropped w) (m (connected (dropped w)).1) refl (λ c. c)
      (h.run (connected (dropped w)).1)

pub with_client-Balanced : {A : Type 0} {m : M A} → Balanced m → Balanced (with_client m)
unfolding with_client Monad.◌>>◌ Monad.◌>>=◌ connect round_trip
with_client-Balanced {m} h = record { run = λ w. with_client_case m (next_fault w.env.faults) w h }

pub ruleset balance = (
  pure-Balanced, throw-Balanced, get_env-Balanced, field-Balanced, bind-Balanced, seq-Balanced,
  try_catch-Balanced, on_row-Balanced, branch-Balanced, set_env-Balanced, with_client-Balanced,
  query-Balanced, read-Balanced, read_committed-Balanced, begin-Balanced, commit-Balanced,
  rollback-Balanced,
)
