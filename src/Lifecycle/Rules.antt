-- ===== src/Lifecycle/Rules.antt =====
-- A handler that takes the rows along their lives only, whatever fails on its way: the rules that
-- prove it from the parts of the handler.
use zolt.Prelude.{ℕ, Bool, Option}
use zolt.Schema.{Db}
use zolt.Monad.{World, M, Env, ok}
use zolt.Monad
use zolt.Monad.Preserves.{Preserves}
use zolt.Monad.Preserves
use zolt.Monad.Evolves.{Evolves, Follows}
use zolt.Monad.Evolves
use zolt.Lifecycle.{DbStep, DbStep-refl, DbStep-trans}

pub record Lives {A : Type 0} (m : M A) : Type 0 where
  pub run : Preserves (Evolves DbStep) m

abbrev Kept : World → World → Type 0
Kept = Evolves DbStep

Kept-here : (w : World) → Kept w w
Kept-here = Evolves.Evolves-here DbStep DbStep-refl DbStep-trans

Kept-then : (u v w : World) → Kept u v → Kept v w → Kept u w
Kept-then = Evolves.Evolves-then DbStep DbStep-refl DbStep-trans

pub pure-Lives : {A : Type 0} (a : A) → Lives (Monad.pure a)
pure-Lives a = record { run = Preserves.pure-Preserves Kept Kept-here Kept-then a }

pub throw-Lives : {A : Type 0} (e : Monad.Failure) → Lives (Monad.throw {A = A} e)
throw-Lives {A} e = record { run = Preserves.throw-Preserves Kept Kept-here Kept-then A e }

pub get_env-Lives : {A : Type 0} (f : Env → A) → Lives (Monad.get_env f)
get_env-Lives f = record { run = Preserves.get_env-Preserves Kept Kept-here Kept-then f }

pub field-Lives : {A : Type 0} (o : Option A) → Lives (Monad.field o)
field-Lives o = record { run = Preserves.field-Preserves Kept Kept-here Kept-then o }

pub bind-Lives :
    {A B : Type 0} {m : M A} {k : A → M B}
    → Lives m
    → ((a : A) → Lives (k a))
    → Lives (Monad.◌>>=◌ m k)
bind-Lives {m} {k} h g = record {
  run = Preserves.bind-Preserves Kept Kept-here Kept-then m k h.run (λ a. (g a).run);
}

pub seq-Lives : {A B : Type 0} {m : M A} {k : M B} → Lives m → Lives k → Lives (Monad.◌>>◌ m k)
seq-Lives {m} {k} h g = record {
  run = Preserves.seq-Preserves Kept Kept-here Kept-then m k h.run g.run;
}

pub try_catch-Lives :
    {A : Type 0} {m : M A} {k : Monad.Failure → M A}
    → Lives m
    → ((e : Monad.Failure) → Lives (k e))
    → Lives (Monad.try_catch m k)
try_catch-Lives {m} {k} h g = record {
  run = Preserves.try_catch-Preserves Kept Kept-here Kept-then m k h.run (λ e. (g e).run);
}

pub on_row-Lives :
    {A B : Type 0} (o : Option A) {m : M B} {k : A → M B}
    → Lives m
    → ((a : A) → Lives (k a))
    → Lives (Monad.on_row o m k)
on_row-Lives o {m} {k} h g = record {
  run = Preserves.on_row-Preserves Kept Kept-here Kept-then o m k h.run (λ a. (g a).run);
}

pub branch-Lives :
    {A : Type 0} (b : Bool) {m n : M A} → Lives m → Lives n → Lives (Monad.branch b m n)
branch-Lives b {m} {n} h g = record {
  run = Preserves.branch-Preserves Kept Kept-here Kept-then b m n h.run g.run;
}

pub set_env-Lives : (f : Env → Env) → Lives (Monad.set_env f)
set_env-Lives f = record { run = Evolves.set_env-Evolves DbStep DbStep-refl DbStep-trans f }

pub with_client-Lives : {A : Type 0} {m : M A} → Lives m → Lives (Monad.with_client m)
with_client-Lives {m} h = record {
  run = Evolves.with_client-Evolves DbStep DbStep-refl DbStep-trans m h.run;
}

pub finally-Lives : {A : Type 0} {m : M A} (f : Env → Env) → Lives m → Lives (Monad.finally m f)
finally-Lives {m} f h = record {
  run = Evolves.finally-Evolves DbStep DbStep-refl DbStep-trans m f h.run;
}

pub read-Lives : {A : Type 0} (f : ℕ → Db → A) → Lives (Monad.read f)
read-Lives f = record { run = Evolves.read-Evolves DbStep DbStep-refl DbStep-trans f }

pub read_committed-Lives : {A : Type 0} (f : Db → A) → Lives (Monad.read_committed f)
read_committed-Lives f = record {
  run = Evolves.read_committed-Evolves DbStep DbStep-refl DbStep-trans f;
}

pub query-Lives : {A : Type 0} {s : Monad.Sql A} → Follows DbStep s → Lives (Monad.query s)
query-Lives {s} h = record { run = Evolves.query-Evolves DbStep DbStep-refl DbStep-trans s h }

pub begin-Lives : Lives Monad.begin
begin-Lives = record { run = Evolves.begin-Evolves DbStep DbStep-refl DbStep-trans }

pub commit-Lives : Lives Monad.commit
commit-Lives = record { run = Evolves.commit-Evolves DbStep DbStep-refl DbStep-trans }

pub rollback-Lives : Lives Monad.rollback
rollback-Lives = record { run = Evolves.rollback-Evolves DbStep DbStep-refl DbStep-trans }

-- While this handler waits, other sessions commit and the clock runs.
pub foreign-Lives :
    (f : Db → Db) (g : Env → Env)
    → ((d : Db) → DbStep d (f d))
    → Lives {A = Unit {0}} (λ w. (ok tt, record w { db = f w.db; env = g w.env }))
foreign-Lives f g h = record {
  run = λ w.
      Evolves.moved DbStep DbStep-refl DbStep-trans w.saved w.db (f w.db) w.env (g w.env) (h w.db);
}

pub ruleset lives = (
  pure-Lives, throw-Lives, get_env-Lives, field-Lives, bind-Lives, seq-Lives, try_catch-Lives,
  on_row-Lives, branch-Lives, set_env-Lives, with_client-Lives, read-Lives, read_committed-Lives,
  begin-Lives, commit-Lives, rollback-Lives,
)
