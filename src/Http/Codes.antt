-- ===== src/Http/Codes.antt =====
-- The status codes with which a handler of src/modules/jobs can be answered, by the error handler of
-- src/middleware/error.middleware.ts where it throws: the rules that bound them from the parts of the handler.
use zolt.Prelude.{
  ℕ, ◌≡◌, refl, Bool, true, false, Option, none, some, List, [], ◌∷◌, ◌||◌, ◌==◌, if◌then◌else◌,
}
use zolt.Schema.{Db}
use zolt.Monad.{
  World, M, Env, Result, ok, err, Sql, Failure, app_error, database_error, type_error,
  insert_returned_no_row, Message, connected, round_trip, next_fault, rest_faults, outcome, look,
  run_statement, release, with_client, connect, finally, continue, caught, begun, ended,
  rolled_back, committed,
}
use zolt.Monad
use zolt.Http.Reply.{Reply}
use zolt.Http.Errors.{error_reply, thrown}

abbrev pub among : List ℕ → ℕ → Bool
among [] c = false
among (d ∷ ds) c = c == d || among ds c

unfoldable pub code_of : Failure → ℕ
unfolding error_reply thrown
code_of e = (error_reply (thrown e)).code

abbrev pub code_in : {A : Type 0} → List ℕ → Result A → Bool
code_in cs (ok a) = true
code_in cs (err e) = among cs (code_of e)

abbrev pub reply_in : List ℕ → Result Reply → Bool
reply_in cs (ok r) = among cs r.code
reply_in cs (err e) = among cs (code_of e)

-- The codes of what the handler throws.
pub record Throws (cs : List ℕ) {A : Type 0} (m : M A) : Type 0 where
  pub run : (w : World) → code_in cs (m w).0 ≡ true

-- A round trip that fails is answered with code 500.
module _ (cs : List ℕ) (hidden : among cs 500 ≡ true) where
  fault_case :
      {A : Type 0} (done : World → Result A × World) (b : Bool) (w : World)
      → ((w : World) → code_in cs (done w).0 ≡ true)
      → code_in cs (if b then (err database_error, w) else done w).0 ≡ true
  unfolding code_of
  fault_case done true w h = hidden
  fault_case done false w h = h w

  outcome_case : {A : Type 0} (w : World) (o : Option (A × Db)) → code_in cs (outcome w o).0 ≡ true
  unfolding code_of
  outcome_case w none = hidden
  outcome_case w (some (a, d)) = refl

  commit_case :
      (b c : Bool) (w v : World)
      → code_in cs
          (if b then (if c then (err database_error, w) else Monad.unconfirmed w) else ended v).0
        ≡ true
  unfolding code_of
  commit_case true true w v = hidden
  commit_case true false w v = hidden
  commit_case false c w v = refl

module _ {cs : List ℕ} where
  pub pure-Throws : {A : Type 0} (a : A) → Throws cs (Monad.pure a)
  unfolding Monad.pure
  pure-Throws a = record { run = λ w. refl }

  pub throw-Throws :
      {A : Type 0} (e : Failure) → among cs (code_of e) ≡ true → Throws cs (Monad.throw {A = A} e)
  unfolding Monad.throw
  throw-Throws e h = record { run = λ w. h }

  pub get_env-Throws : {A : Type 0} (f : Env → A) → Throws cs (Monad.get_env f)
  unfolding Monad.get_env
  get_env-Throws f = record { run = λ w. refl }

  pub set_env-Throws : (f : Env → Env) → Throws cs (Monad.set_env f)
  unfolding Monad.set_env
  set_env-Throws f = record { run = λ w. refl }

  continue_case :
      {A B : Type 0} (k : A → M B) (r : Result A × World)
      → code_in cs r.0 ≡ true
      → ((a : A) → Throws cs (k a))
      → code_in cs (continue k r).0 ≡ true
  continue_case k (ok a, w) h g = (g a).run w
  continue_case k (err e, w) h g = h

  pub bind-Throws :
      {A B : Type 0} {m : M A} {k : A → M B}
      → Throws cs m
      → ((a : A) → Throws cs (k a))
      → Throws cs (Monad.◌>>=◌ m k)
  unfolding Monad.◌>>=◌
  bind-Throws {m = m} {k = k} h g = record { run = λ w. continue_case k (m w) (h.run w) g }

  pub seq-Throws :
      {A B : Type 0} {m : M A} {k : M B} → Throws cs m → Throws cs k → Throws cs (Monad.◌>>◌ m k)
  unfolding Monad.◌>>◌
  seq-Throws {m = m} {k = k} h g = bind-Throws h (λ _. g)

  pub on_row-Throws :
      {A B : Type 0} (o : Option A) {m : M B} {k : A → M B}
      → Throws cs m
      → ((a : A) → Throws cs (k a))
      → Throws cs (Monad.on_row o m k)
  unfolding Monad.on_row
  on_row-Throws none h g = h
  on_row-Throws (some a) h g = g a

  pub branch-Throws :
      {A : Type 0} (b : Bool) {m n : M A}
      → Throws cs m
      → Throws cs n
      → Throws cs (Monad.branch b m n)
  unfolding Monad.branch
  branch-Throws true h g = h
  branch-Throws false h g = g

  pub finally-Throws :
      {A : Type 0} {m : M A} (f : Env → Env) → Throws cs m → Throws cs (Monad.finally m f)
  unfolding Monad.finally
  finally-Throws f h = record { run = λ w. h.run w }

  -- Round trips may fail, with code 500.
  module _ (hidden : among cs 500 ≡ true) where
    round_trip-Throws :
        {A : Type 0} (done : World → Result A × World)
        → ((w : World) → code_in cs (done w).0 ≡ true)
        → Throws cs (Monad.round_trip done)
    unfolding round_trip
    round_trip-Throws done h = record {
      run = λ w. fault_case cs hidden done (next_fault w.env.faults) _ h;
    }

    pub query-Throws : {A : Type 0} (s : Sql A) → Throws cs (Monad.query s)
    unfolding Monad.query
    query-Throws s =
        round_trip-Throws (run_statement s) (λ w. outcome_case cs hidden w (s w.env.now w.db))

    pub read-Throws : {A : Type 0} (f : ℕ → Db → A) → Throws cs (Monad.read f)
    unfolding Monad.read
    read-Throws f = round_trip-Throws (look (λ w. f w.env.now w.db)) (λ w. refl)

    pub begin-Throws : Throws cs Monad.begin
    unfolding Monad.begin
    begin-Throws = round_trip-Throws begun (λ w. refl)

    pub commit-Throws : Throws cs Monad.commit
    unfolding Monad.commit round_trip
    commit-Throws = record {
      run = λ w.
          commit_case cs hidden (next_fault w.env.faults) (next_fault (Monad.dropped w).env.faults)
            (Monad.dropped (Monad.dropped w)) (Monad.dropped w);
    }

    pub rollback-Throws : Throws cs Monad.rollback
    unfolding Monad.rollback
    rollback-Throws = record {
      run = λ w. (round_trip-Throws (look (λ _. tt {0})) (λ w. refl)).run (rolled_back w);
    }

    connect-Throws : Throws cs Monad.connect
    unfolding Monad.connect
    connect-Throws = round_trip-Throws connected (λ w. refl)

    pub with_client-Throws : {A : Type 0} {m : M A} → Throws cs m → Throws cs (Monad.with_client m)
    unfolding Monad.with_client
    with_client-Throws h = seq-Throws connect-Throws (finally-Throws release h)

module _ (cs : List ℕ) (hidden : among cs 500 ≡ true) where
  rethrow_case :
      {A : Type 0} (r : Result A × World)
      → code_in cs r.0 ≡ true
      → code_in cs (caught (λ e. Monad.◌>>◌ Monad.rollback (Monad.throw e)) r).0 ≡ true
  rethrow_case (ok a, w) h = refl
  rethrow_case (err e, w) h = (seq-Throws (rollback-Throws hidden) (throw-Throws e h)).run w

module _ {cs : List ℕ} (hidden : among cs 500 ≡ true) where
  pub rethrow-Throws :
      {A : Type 0} {m : M A}
      → Throws cs m
      → Throws cs (Monad.try_catch m (λ e. Monad.◌>>◌ Monad.rollback (Monad.throw e)))
  unfolding Monad.try_catch
  rethrow-Throws {m = m} h = record { run = λ w. rethrow_case cs hidden (m w) (h.run w) }

pub ruleset throws = (
  pure-Throws, throw-Throws, get_env-Throws, set_env-Throws, bind-Throws, seq-Throws, on_row-Throws,
  branch-Throws, query-Throws, read-Throws, begin-Throws, commit-Throws, rollback-Throws,
  with_client-Throws, rethrow-Throws,
)
