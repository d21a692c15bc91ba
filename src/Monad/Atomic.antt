-- ===== src/Monad/Atomic.antt =====
-- A transaction of the form BEGIN, statements, COMMIT, whose catch rolls back and throws again, with round trips
-- that fail anywhere, and a COMMIT whose reply may be lost.
use zolt.Prelude.{
  ℕ, ◌≡◌, refl, Bool, true, false, Option, none, some, if◌then◌else◌, ◌∙◌, ap, sym, subst, inl, inr,
  ◌⊎◌,
}
use zolt.Schema.{Db}
use zolt.Monad.{
  World, M, Result, ok, err, Sql, Failure, connected, round_trip, next_fault, begun, ended, outcome,
  rolled_back, look, release, with_client, connect, finally, continue, throw, caught, pure, query,
  read, commit, rollback, begin, try_catch, ◌>>=◌, ◌>>◌, database_error, dropped, unconfirmed,
}
use zolt.Monad.Evolves.{durable}

-- A database is what it was, or what a success leaves.
abbrev pub Fate : Db → {A : Type 0} → (A → Db → Type 0) → Db → Type 0
Fate d {A} Done x = (x ≡ d) ⊎ ((a : A) × Done a x)

-- No transaction is open. The answer and the database are those of a success; or an error is thrown, and the
-- database is what it was, or what a success leaves.
abbrev pub AllOrNothing : Db → {A : Type 0} → (A → Db → Type 0) → Result A × World → Type 0
AllOrNothing d Done (ok a, w) = (w.saved ≡ none) × Done a w.db
AllOrNothing d Done (err e, w) = (w.saved ≡ none) × Fate d Done w.db

-- Inside a transaction that found the database `d`, at the time `n`.
abbrev pub Opened : Db → ℕ → {A : Type 0} → (A → Db → Type 0) → Result A × World → Type 0
Opened d n P (ok a, w) = (w.saved ≡ some d) × (w.env.now ≡ n) × P a w.db
Opened d n P (err e, w) = w.saved ≡ some d

-- At the end of the statements of the transaction, before the catch.
abbrev pub Closed : Db → {A : Type 0} → (A → Db → Type 0) → Result A × World → Type 0
Closed d Done (ok a, w) = (w.saved ≡ none) × Done a w.db
Closed d Done (err e, w) = Fate d Done (durable w)

-- What a statement does, if no constraint refuses it.
abbrev pub Yields : {A : Type 0} → (A → Db → Type 0) → Option (A × Db) → Type 0
Yields P none = Unit {0}
Yields P (some (a, x)) = P a x

durable-open : (d : Db) (w : World) → w.saved ≡ some d → durable w ≡ d
durable-open d w h = rw h

durable-closed : (w : World) → w.saved ≡ none → durable w ≡ w.db
durable-closed w h = rw h

module _ {A : Type 0} (P : A → Db → Type 0) (d : Db) (n : ℕ) where
  outcome_case :
      (w : World) (o : Option (A × Db))
      → w.saved ≡ some d
      → w.env.now ≡ n
      → Yields P o
      → Opened d n P (outcome w o)
  outcome_case w none h t p = h
  outcome_case w (some (a, x)) h t p = (h, t, p)

  query_case :
      (b : Bool) (w : World) (o : Option (A × Db))
      → w.saved ≡ some d
      → w.env.now ≡ n
      → Yields P o
      → Opened d n P (if b then (err database_error, dropped w) else outcome (dropped w) o)
  query_case true w o h t p = h
  query_case false w o h t p = outcome_case (dropped w) o h t p

  pub query-Opened :
      (s : Sql A) (w : World)
      → w.saved ≡ some d
      → w.env.now ≡ n
      → Yields P (s n w.db)
      → Opened d n P (query s w)
  unfolding query round_trip
  query-Opened s w h t p =
      query_case (next_fault w.env.faults) w (s w.env.now w.db) h t
        (subst (λ m. Yields P (s m w.db)) (sym t) p)

  pub continue-Opened :
      {B : Type 0} (Q : B → Db → Type 0) (k : A → M B) (r : Result A × World)
      → Opened d n P r
      → ((a : A) (w : World) → w.saved ≡ some d → w.env.now ≡ n → P a w.db → Opened d n Q (k a w))
      → Opened d n Q (continue k r)
  continue-Opened Q k (ok a, w) h g = g a w h.0 h.1 h.2
  continue-Opened Q k (err e, w) h g = h

  pub continue-Closed :
      {B : Type 0} (Done : B → Db → Type 0) (k : A → M B) (r : Result A × World)
      → Opened d n P r
      → ((a : A) (w : World) → w.saved ≡ some d → w.env.now ≡ n → P a w.db → Closed d Done (k a w))
      → Closed d Done (continue k r)
  continue-Closed Done k (ok a, w) h g = g a w h.0 h.1 h.2
  continue-Closed Done k (err e, w) h g = inl (durable-open d w h)

module _ {A : Type 0} (Done : A → Db → Type 0) (d : Db) where
  -- COMMIT, and then nothing that can throw.
  commit_case :
      (b c : Bool) (a : A) (w : World)
      → w.saved ≡ some d
      → Done a w.db
      → Closed d Done (
          continue
            (λ _. pure a)
            (if b
              then (if c
                  then (err database_error, dropped (dropped w))
                  else unconfirmed (dropped (dropped w)))
              else ended (dropped w)))
  unfolding pure
  commit_case true true a w h p = inl (durable-open d w h)
  commit_case true false a w h p = inr (a, p)
  commit_case false c a w h p = (refl, p)

  pub commit-Closed :
      (a : A) (w : World) → w.saved ≡ some d → Done a w.db → Closed d Done ((commit >> pure a) w)
  unfolding ◌>>◌ ◌>>=◌ commit round_trip
  commit-Closed a w h p =
      commit_case (next_fault w.env.faults) (next_fault (dropped w).env.faults) a w h p

  read_case :
      {B : Type 0} (f : ℕ → Db → B) (g : B → A) (b : Bool) (w : World)
      → w.saved ≡ none
      → w.db ≡ d
      → Done (g (f w.env.now d)) d
      → Closed d Done (
          continue
            (λ a. pure (g a))
            (if b
              then (err database_error, dropped w)
              else look (λ v. f v.env.now v.db) (dropped w)))
  unfolding pure
  read_case f g true w h e p = inl (durable-closed w h ∙ e)
  read_case f g false w h e p = (h, subst (λ x. Done (g (f w.env.now x)) x) (sym e) p)

  undone_case :
      {B : Type 0} (f : ℕ → Db → B) (g : B → A) (b : Bool) (w : World)
      → w.saved ≡ some d
      → Done (g (f w.env.now d)) d
      → Closed d Done (
          continue
            (λ _. read f >>= λ a. pure (g a))
            (if b
              then (err database_error, dropped (rolled_back w))
              else look (λ _. tt) (dropped (rolled_back w))))
  unfolding read ◌>>=◌ round_trip
  undone_case f g true w h p = inl (durable-open d w h)
  undone_case f g false w h p =
      read_case f g _ (dropped (rolled_back w)) refl (durable-open d w h) p

  -- ROLLBACK, and then a SELECT outside the transaction.
  pub rollback-read-Closed :
      {B : Type 0} (f : ℕ → Db → B) (g : B → A) (w : World)
      → w.saved ≡ some d
      → Done (g (f w.env.now d)) d
      → Closed d Done ((rollback >> (read f >>= λ a. pure (g a))) w)
  unfolding ◌>>◌ ◌>>=◌ rollback round_trip
  rollback-read-Closed f g w h p = undone_case f g (next_fault w.env.faults) w h p

  undo_case :
      (b : Bool) (e : Failure) (w : World)
      → Fate d Done (durable w)
      → AllOrNothing d Done (
          continue
            (λ _. throw e)
            (if b
              then (err database_error, dropped (rolled_back w))
              else look (λ _. tt) (dropped (rolled_back w))))
  unfolding throw
  undo_case true e w h = (refl, h)
  undo_case false e w h = (refl, h)

  caught_case :
      (r : Result A × World)
      → Closed d Done r
      → AllOrNothing d Done (caught (λ e. rollback >> throw e) r)
  unfolding ◌>>◌ ◌>>=◌ rollback round_trip
  caught_case (ok a, w) h = h
  caught_case (err e, w) h = undo_case (next_fault w.env.faults) e w h

  released :
      (r : Result A × World)
      → AllOrNothing d Done r
      → AllOrNothing d Done (let (a, w') = r in (a, record w' { env = release (w'.env) }))
  released (ok a, w) h = h
  released (err e, w) h = h

module _ {A : Type 0} (Done : A → Db → Type 0) (m : M A) where
  -- The statements of the transaction, from where it begins.
  abbrev pub Ends : World → Type 0
  Ends w =
      (u : World)
      → u.saved ≡ some w.db
      → u.env.now ≡ w.env.now
      → u.db ≡ w.db
      → Closed w.db Done (m u)

  begin_case :
      (b : Bool) (w : World)
      → w.saved ≡ none
      → Ends w
      → Closed w.db Done
          (continue (λ _. m) (if b then (err database_error, dropped w) else begun (dropped w)))
  begin_case true w h g = inl (durable-closed w h)
  begin_case false w h g = g (begun (dropped w)).1 (ap some (durable-closed w h)) refl refl

  attempt :
      (w : World)
      → w.saved ≡ none
      → Ends w
      → AllOrNothing w.db Done (try_catch (begin >> m) (λ e. rollback >> throw e) w)
  unfolding try_catch ◌>>◌ ◌>>=◌ begin round_trip
  attempt w h g = caught_case Done w.db _ (begin_case (next_fault w.env.faults) w h g)

  client_case :
      (b : Bool) (w : World)
      → w.saved ≡ none
      → Ends w
      → AllOrNothing w.db Done (
          continue
            (λ _. finally (try_catch (begin >> m) (λ e. rollback >> throw e)) release)
            (if b then (err database_error, dropped w) else connected (dropped w)))
  unfolding finally
  client_case true w h g = (h, inl refl)
  client_case false w h g = released Done w.db _ (attempt (connected (dropped w)).1 h g)

  -- The form of the transactions of the repositories.
  pub transaction-AllOrNothing :
      (w : World)
      → w.saved ≡ none
      → Ends w
      → AllOrNothing w.db Done (with_client (try_catch (begin >> m) (λ e. rollback >> throw e)) w)
  unfolding with_client ◌>>◌ ◌>>=◌ connect round_trip
  transaction-AllOrNothing w h g = client_case (next_fault w.env.faults) w h g
