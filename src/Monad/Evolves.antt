-- ===== src/Monad/Evolves.antt =====
-- The database under a relation that every statement follows. A handler that is built from such
-- statements takes what other sessions see through steps of the relation only, transactions that are
-- rolled back or that throw included.
use zolt.Prelude.{
  sym, subst, ap, ℕ, ◌≡◌, inl, inr, Bool, true, false, Option, none, some, Bool-cases,
  if◌then◌else◌,
}
use zolt.Schema.{Db}
use zolt.Monad.{
  dropped, unconfirmed, World, Env, M, Result, Sql, finally, set_env, outcome, run_statement, look,
  connected, begun, ended, rolled_back, round_trip, query, committed, read_committed, read, connect,
  release, with_client, begin, commit, rollback, next_fault,
}
use zolt.Monad.Preserves.{Preserves, seq-Preserves}

-- The database as every other session sees it.
abbrev pub durable : World → Db
durable w = committed w.saved w.db

-- What is durable moves by R, and the open transaction has moved from there by R.
abbrev pub Evolves : (Db → Db → Type 0) → World → World → Type 0
Evolves R u v = R (durable u) u.db → R (durable u) (durable v) × R (durable v) v.db

-- Where a statement that is not refused leaves the database.
pub data Lands (R : Db → Db → Type 0) {A : Type 0} (c : Db) : Option (A × Db) → Type 0 where
  refused : Lands R c none
  lands : {a : A} {d : Db} → R c d → Lands R c (some (a, d))

pub if-Lands :
    {A : Type 0} (R : Db → Db → Type 0) (c : Db) (b : Bool) (x y : Option (A × Db))
    → Lands R c x
    → Lands R c y
    → Lands R c (if b then x else y)
if-Lands R c true x y h k = h
if-Lands R c false x y h k = k

-- A statement moves the database by R, if it is not refused.
abbrev pub Follows : (Db → Db → Type 0) → {A : Type 0} → Sql A → Type 0
Follows R s = (now : ℕ) (d : Db) → Lands R d (s now d)

module _ (R : Db → Db → Type 0) (here : (d : Db) → R d d)
    (chain : (c d e : Db) → R c d → R d e → R c e) where
  pub Evolves-here : (w : World) → Evolves R w w
  Evolves-here w h = (here (durable w), h)

  pub Evolves-then : (u v w : World) → Evolves R u v → Evolves R v w → Evolves R u w
  Evolves-then u v w f g h =
      let p = f h in let q = g p.1 in (chain (durable u) (durable v) (durable w) p.0 q.0, q.1)

  -- From a world with no transaction open, what is durable moves by R.
  pub quiet-Evolves : (u v : World) → u.saved ≡ none → Evolves R u v → R u.db (durable v)
  quiet-Evolves u v quiet f =
      let same : durable u ≡ u.db = ap (λ s. committed s u.db) quiet in
      subst (λ c. R c (durable v)) same (f (subst (λ c. R c u.db) (sym same) (here u.db))).0

  round_trip-Evolves :
      {A : Type 0} (done : World → Result A × World)
      → Preserves (Evolves R) done
      → Preserves (Evolves R) (round_trip done)
  unfolding round_trip
  round_trip-Evolves done h w = elim (Bool-cases (next_fault w.env.faults)) [
    | inl e ↦ rw e (Evolves-here w)
    | inr e ↦ rw e (h _)
  ]

  pub moved :
      (saved : Option Db) (d d' : Db) (env env' : Env)
      → R d d'
      → Evolves R
          (record { db = d; saved = saved; env = env })
          (record { db = d'; saved = saved; env = env' })
  moved none d d' env env' r h = (r, here d')
  moved (some s) d d' env env' r h = (here s, chain s d d' h r)

  outcome_case :
      {A : Type 0} (w : World) (o : Option (A × Db)) → Lands R w.db o → Evolves R w (outcome w o).1
  outcome_case w none h = Evolves-here w
  outcome_case w (some (a, d')) (lands h) = moved w.saved w.db d' w.env w.env h

  pub query-Evolves : {A : Type 0} (s : Sql A) → Follows R s → Preserves (Evolves R) (query s)
  unfolding query
  query-Evolves s h =
      round_trip-Evolves (run_statement s)
        (λ w. outcome_case w (s w.env.now w.db) (h w.env.now w.db))

  look-Evolves : {A : Type 0} (f : World → A) → Preserves (Evolves R) (round_trip (look f))
  look-Evolves f = round_trip-Evolves (look f) Evolves-here

  pub read-Evolves : {A : Type 0} (f : ℕ → Db → A) → Preserves (Evolves R) (read f)
  unfolding read
  read-Evolves f = look-Evolves (λ w. f w.env.now w.db)

  pub read_committed-Evolves : {A : Type 0} (f : Db → A) → Preserves (Evolves R) (read_committed f)
  unfolding read_committed
  read_committed-Evolves f = look-Evolves (λ w. f (durable w))

  pub set_env-Evolves : (f : Env → Env) → Preserves (Evolves R) (set_env f)
  unfolding set_env
  set_env-Evolves f = Evolves-here

  pub finally-Evolves :
      {A : Type 0} (m : M A) (f : Env → Env)
      → Preserves (Evolves R) m
      → Preserves (Evolves R) (finally m f)
  unfolding finally
  finally-Evolves m f h = h

  connect-Evolves : Preserves (Evolves R) connect
  unfolding connect
  connect-Evolves = round_trip-Evolves connected Evolves-here

  pub with_client-Evolves :
      {A : Type 0} (m : M A) → Preserves (Evolves R) m → Preserves (Evolves R) (with_client m)
  unfolding with_client
  with_client-Evolves m h =
      seq-Preserves (Evolves R) Evolves-here Evolves-then connect (finally m release)
        connect-Evolves (finally-Evolves m release h)

  pub begin-Evolves : Preserves (Evolves R) begin
  unfolding begin
  begin-Evolves = round_trip-Evolves begun (λ w h. (here (durable w), h))

  commit_case :
      (b : Bool) (w : World)
      → Evolves R w (if b then round_trip unconfirmed (dropped w) else ended (dropped w)).1
  commit_case true w = round_trip-Evolves unconfirmed (λ w h. (h, here w.db)) (dropped w)
  commit_case false w = λ h. (h, here w.db)

  pub commit-Evolves : Preserves (Evolves R) commit
  unfolding commit
  commit-Evolves w = commit_case (next_fault w.env.faults) w

  pub rollback-Evolves : Preserves (Evolves R) rollback
  unfolding rollback
  rollback-Evolves w h = look-Evolves (λ _. tt) (rolled_back w) (here (durable w))
