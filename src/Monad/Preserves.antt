-- ===== src/Monad/Preserves.antt =====
-- Rules for a relation between the world before a handler and the world after it, which the
-- combinators of the monad keep: enough to prove it of a handler from its statements.
use zolt.Prelude.{Bool, true, false, Option, none, some}
use zolt.Monad.{
  World, Env, M, Result, ok, err, Failure, pure, throw, caught, try_catch, continue, ◌>>=◌, ◌>>◌,
  on_row, branch, get_env, field,
}

abbrev pub Preserves : (World → World → Type 0) → {A : Type 0} → M A → Type 0
Preserves S m = (w : World) → S w (m w).1

module _ (S : World → World → Type 0) (here : (w : World) → S w w)
    (chain : (u v w : World) → S u v → S v w → S u w) where
  pub pure-Preserves : {A : Type 0} (a : A) → Preserves S (pure a)
  unfolding pure
  pure-Preserves a w = here w

  pub throw-Preserves : (A : Type 0) (e : Failure) → Preserves S (throw {A = A} e)
  unfolding throw
  throw-Preserves A e w = here w

  pub get_env-Preserves : {A : Type 0} (f : Env → A) → Preserves S (get_env f)
  unfolding get_env
  get_env-Preserves f w = here w

  pub field-Preserves : {A : Type 0} (o : Option A) → Preserves S (field o)
  unfolding field
  field-Preserves none w = here w
  field-Preserves (some a) w = here w

  continue_case :
      {A B : Type 0} (k : A → M B) (u : World) (r : Result A × World)
      → S u r.1
      → ((a : A) → Preserves S (k a))
      → S u (continue k r).1
  continue_case k u (ok a, v) h g = chain u v _ h (g a v)
  continue_case k u (err e, v) h g = h

  pub bind-Preserves :
      {A B : Type 0} (m : M A) (k : A → M B)
      → Preserves S m
      → ((a : A) → Preserves S (k a))
      → Preserves S (m >>= k)
  unfolding ◌>>=◌
  bind-Preserves m k h g w = continue_case k w (m w) (h w) g

  pub seq-Preserves :
      {A B : Type 0} (m : M A) (k : M B) → Preserves S m → Preserves S k → Preserves S (m >> k)
  unfolding ◌>>◌
  seq-Preserves m k h g w = continue_case (λ _. k) w (m w) (h w) (λ _. g)

  caught_case :
      {A : Type 0} (k : Failure → M A) (u : World) (r : Result A × World)
      → S u r.1
      → ((e : Failure) → Preserves S (k e))
      → S u (caught k r).1
  caught_case k u (ok a, v) h g = h
  caught_case k u (err e, v) h g = chain u v _ h (g e v)

  pub try_catch-Preserves :
      {A : Type 0} (m : M A) (k : Failure → M A)
      → Preserves S m
      → ((e : Failure) → Preserves S (k e))
      → Preserves S (try_catch m k)
  unfolding try_catch
  try_catch-Preserves m k h g w = caught_case k w (m w) (h w) g

  pub on_row-Preserves :
      {A B : Type 0} (o : Option A) (m : M B) (k : A → M B)
      → Preserves S m
      → ((a : A) → Preserves S (k a))
      → Preserves S (on_row o m k)
  unfolding on_row
  on_row-Preserves none m k h g = h
  on_row-Preserves (some a) m k h g = g a

  pub branch-Preserves :
      {A : Type 0} (b : Bool) (m n : M A)
      → Preserves S m
      → Preserves S n
      → Preserves S (branch b m n)
  unfolding branch
  branch-Preserves true m n h g = h
  branch-Preserves false m n h g = g
