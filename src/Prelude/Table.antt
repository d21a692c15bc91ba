-- ===== src/Prelude/Table.antt =====
-- A table is the list of its rows, in the order in which they were inserted. What the SQL statements
-- of the repositories do to a table, by the WHERE condition as a test and the SET list as a function.
use Prim.Native.Nat.{ℕ, suc}
use mathlib.Core.Bool.{Bool, true, false}
use mathlib.Core.Option.{Option, none, some}
use mathlib.Core.List.{List, [], ◌∷◌, ◌++◌}
use zolt.Prelude.Tests.{if◌then◌else◌}

module _ {ℓ} {A : Type ℓ} where
  -- SELECT * ... WHERE p
  unfoldable pub select : (A → Bool) → List A → List A
  select p [] = []
  select p (x ∷ xs) = let rest = select p xs in if p x then x ∷ rest else rest

  -- The first row of such a result, `rows[0] ?? null`.
  unfoldable pub select_first : (A → Bool) → List A → Option A
  select_first p [] = none
  select_first p (x ∷ xs) = let rest = select_first p xs in if p x then some x else rest

  -- UPDATE ... SET f WHERE p
  unfoldable pub update : (A → Bool) → (A → A) → List A → List A
  update p f [] = []
  update p f (x ∷ xs) = (if p x then f x else x) ∷ update p f xs

  -- The rows that UPDATE ... RETURNING * gives back.
  unfoldable pub updated : (A → Bool) → (A → A) → List A → List A
  updated p f [] = []
  updated p f (x ∷ xs) = let rest = updated p f xs in if p x then f x ∷ rest else rest

  unfoldable pub updated_first : (A → Bool) → (A → A) → List A → Option A
  updated_first p f [] = none
  updated_first p f (x ∷ xs) = let rest = updated_first p f xs in if p x then some (f x) else rest

  unfoldable pub exists : (A → Bool) → List A → Bool
  exists p [] = false
  exists p (x ∷ xs) = let rest = exists p xs in if p x then true else rest

  -- DELETE ... WHERE p
  unfoldable pub delete : (A → Bool) → List A → List A
  delete p [] = []
  delete p (x ∷ xs) = let rest = delete p xs in if p x then rest else x ∷ rest

  -- INSERT ... of one row
  unfoldable pub insert : A → List A → List A
  insert a xs = xs ++ a ∷ []

  abbrev pub count : (A → Bool) → List A → ℕ
  count p [] = 0
  count p (x ∷ xs) = let rest = count p xs in if p x then suc rest else rest
