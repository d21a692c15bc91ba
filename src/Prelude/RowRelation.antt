-- ===== src/Prelude/RowRelation.antt =====
-- Tables row by row: every row is still there, at its place and moved by P, and rows may have been
-- added behind it.
use mathlib.Core.Path.{◌≡◌, ◌∙◌, subst}
use mathlib.Core.Logic.{inl, inr}
use mathlib.Core.Bool.{Bool, true}
use mathlib.Core.Option.{some}
use mathlib.Core.List.{List, [], ◌∷◌, ◌++◌}
use native.Mathlib.Omega.{arith}
use zolt.Prelude.Tests.{Bool-cases}
use zolt.Prelude.Keys.{AllRows}
use zolt.Prelude.Table.{update, insert, select_first}

module _ {A : Type 0} (P : A → A → Type 0) where
  abbrev pub Rows : List A → List A → Type 0
  Rows [] ys = Unit
  Rows (x ∷ xs) [] = ⊥
  Rows (x ∷ xs) (y ∷ ys) = P x y × Rows xs ys

  pub Rows-refl : ((x : A) → P x x) → (xs : List A) → Rows xs xs
  Rows-refl here [] = tt
  Rows-refl here (x ∷ xs) = (here x, Rows-refl here xs)

  pub Rows-trans :
      ((x y z : A) → P x y → P y z → P x z)
      → (xs ys zs : List A) → Rows xs ys
      → Rows ys zs
      → Rows xs zs
  Rows-trans chain [] ys zs h k = tt
  Rows-trans chain (x ∷ xs) [] zs h k = absurd h
  Rows-trans chain (x ∷ xs) (y ∷ ys) [] h k = absurd k
  Rows-trans chain (x ∷ xs) (y ∷ ys) (z ∷ zs) h k =
      (chain x y z h.0 k.0, Rows-trans chain xs ys zs h.1 k.1)

  pub Rows-append : ((x : A) → P x x) → (xs ys : List A) → Rows xs (xs ++ ys)
  Rows-append here [] ys = tt
  Rows-append here (x ∷ xs) ys = (here x, Rows-append here xs ys)

  pub Rows-insert : ((x : A) → P x x) → (a : A) (xs : List A) → Rows xs (insert a xs)
  unfolding insert
  Rows-insert here a xs = Rows-append here xs (a ∷ [])

  pub Rows-update :
      (hit : A → Bool) (set : A → A)
      → ((x : A) → P x x)
      → ((x : A) → hit x ≡ true → P x (set x))
      → (xs : List A) → Rows xs (update hit set xs)
  unfolding update
  Rows-update hit set here step [] = tt
  Rows-update hit set here step (x ∷ xs) = elim (Bool-cases (hit x)) [
    | inl e ↦ rw e (step x e, Rows-update hit set here step xs)
    | inr e ↦ rw e (here x, Rows-update hit set here step xs)
  ]

  -- A row that is found by a test which P keeps is found again, and P holds between the two.
  pub Rows-select_first :
      (p : A → Bool)
      → ((x y : A) → P x y → p y ≡ p x)
      → (xs ys : List A) (a : A) → Rows xs ys
      → select_first p xs ≡ some a
      → (b : A) × (select_first p ys ≡ some b) × P a b
  unfolding select_first
  Rows-select_first p keep [] ys a h e = cc
  Rows-select_first p keep (x ∷ xs) [] a h e = absurd h
  Rows-select_first p keep (x ∷ xs) (y ∷ ys) a h e = elim (Bool-cases (p x)) [
    | inl t ↦
        let found : x ≡ a = ground arith in (y, rw (keep x y h.0 ∙ t), subst (λ z. P z y) found h.0)
    | inr t ↦ rw (keep x y h.0 ∙ t) (Rows-select_first p keep xs ys a h.1 (ground arith))
  ]

  -- The same, where only the rows of this table have to be moved.
  pub Rows-update_all :
      (hit : A → Bool) (set : A → A)
      → ((x : A) → P x x)
      → (xs : List A) → AllRows (λ x. hit x ≡ true → P x (set x)) xs
      → Rows xs (update hit set xs)
  unfolding update
  Rows-update_all hit set here [] all = tt
  Rows-update_all hit set here (x ∷ xs) all = elim (Bool-cases (hit x)) [
    | inl e ↦ rw e (all.0 e, Rows-update_all hit set here xs all.1)
    | inr e ↦ rw e (here x, Rows-update_all hit set here xs all.1)
  ]
