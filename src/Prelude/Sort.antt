-- ===== src/Prelude/Sort.antt =====
-- ORDER BY: a stable sort on a number, in either direction. PostgreSQL leaves the order of equal rows
-- open; here they keep the order of the table.
use Prim.Native.Nat.{ℕ, suc}
use mathlib.Core.Path.{◌≡◌, refl, ap, ◌∙◌}
use mathlib.Core.Bool.{Bool, true, false}
use mathlib.Core.List.{List, [], ◌∷◌}
use native.Mathlib.Omega.{arith}
use zolt.Prelude.Tests.{◌==◌, if◌then◌else◌}
use zolt.Prelude.Lists.{length}
use zolt.Prelude.Table.{count}

module _ {ℓ} {A : Type ℓ} where
  unfoldable pub insert_by : (A → A → Bool) → A → List A → List A
  insert_by before a [] = a ∷ []
  insert_by before a (x ∷ xs) =
      let rest = insert_by before a xs in if before a x then a ∷ x ∷ xs else x ∷ rest

  unfoldable pub sort_by : (A → A → Bool) → List A → List A
  unfolding insert_by
  sort_by before [] = []
  sort_by before (x ∷ xs) = insert_by before x (sort_by before xs)

  count-insert_by :
      (before : A → A → Bool) (p : A → Bool) (a : A) (xs : List A)
      → count p (insert_by before a xs) ≡ count p (a ∷ xs)
  unfolding insert_by
  count-insert_by before p a [] = refl
  count-insert_by before p a (x ∷ xs) = ground (arith, count-insert_by before p a xs)

  -- Sorting neither loses a row nor makes one up.
  pub count-sort_by :
      (before : A → A → Bool) (p : A → Bool) (xs : List A)
      → count p (sort_by before xs) ≡ count p xs
  unfolding sort_by
  count-sort_by before p [] = refl
  count-sort_by before p (x ∷ xs) =
      ground (arith, count-insert_by before p x (sort_by before xs), count-sort_by before p xs)

  length-insert_by :
      (before : A → A → Bool) (a : A) (xs : List A)
      → length (insert_by before a xs) ≡ suc (length xs)
  unfolding insert_by
  length-insert_by before a [] = refl
  length-insert_by before a (x ∷ xs) = ground (arith, length-insert_by before a xs)

  pub length-sort_by :
      (before : A → A → Bool) (xs : List A) → length (sort_by before xs) ≡ length xs
  unfolding sort_by
  length-sort_by before [] = refl
  length-sort_by before (x ∷ xs) =
      length-insert_by before x (sort_by before xs) ∙ ap suc (length-sort_by before xs)

-- id = ANY($1)
unfoldable pub contains : List ℕ → ℕ → Bool
contains [] a = false
contains (x ∷ xs) a = let rest = contains xs a in if x == a then true else rest
