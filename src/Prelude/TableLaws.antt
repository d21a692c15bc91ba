-- ===== src/Prelude/TableLaws.antt =====
-- What a search finds after an update or an insert.
use mathlib.Core.Path.{◌≡◌, refl, ap, ◌∙◌}
use mathlib.Core.Bool.{Bool, true, false, ◌&&◌}
use mathlib.Core.Option.{Option, none, some}
use mathlib.Core.List.{List, [], ◌∷◌}
use Prim.Native.Nat.{ℕ, suc, ◌-◌}
use native.Mathlib.Omega.{arith}
use zolt.Prelude.Lists.{length}
use zolt.Prelude.Tests.{if◌then◌else◌, ◌==◌}
use zolt.Prelude.Table.{select_first, update, updated, updated_first, insert, exists}

abbrev pub map_row {ℓ κ} : {A : Type ℓ} {B : Type κ} → (A → B) → Option A → Option B
map_row f none = none
map_row f (some a) = some (f a)

module _ {A : Type 0} where
  pub updated_first-eq :
      (p : A → Bool) (f : A → A) (xs : List A)
      → updated_first p f xs ≡ map_row f (select_first p xs)
  unfolding updated_first select_first
  updated_first-eq p f [] = refl
  updated_first-eq p f (x ∷ xs) = ground (arith, updated_first-eq p f xs)

  -- The row that is found by a test which the update keeps.
  pub select_first-update :
      (p q : A → Bool) (f : A → A) (xs : List A)
      → ((x : A) → p (f x) ≡ p x)
      → select_first p (update q f xs) ≡ map_row (λ x. if q x then f x else x) (select_first p xs)
  unfolding select_first update
  select_first-update p q f [] keep = refl
  select_first-update p q f (x ∷ xs) keep =
      ground (arith, keep x, select_first-update p q f xs keep)

  pub select_first-insert :
      (p : A → Bool) (a : A) (xs : List A)
      → select_first p xs ≡ none
      → p a ≡ true
      → select_first p (insert a xs) ≡ some a
  unfolding select_first insert
  select_first-insert p a [] absent hit = ground arith
  select_first-insert p a (x ∷ xs) absent hit = ground (arith, select_first-insert p a xs)

  pub select_first-insert_found :
      (p : A → Bool) (a b : A) (xs : List A)
      → select_first p xs ≡ some b
      → select_first p (insert a xs) ≡ some b
  unfolding select_first insert
  select_first-insert_found p a b [] found = cc
  select_first-insert_found p a b (x ∷ xs) found =
      ground (arith, select_first-insert_found p a b xs)

  pub exists-none : (p : A → Bool) (xs : List A) → select_first p xs ≡ none → exists p xs ≡ false
  unfolding select_first exists
  exists-none p [] h = refl
  exists-none p (x ∷ xs) h = ground (arith, exists-none p xs)

  -- A found row passes the test.
  pub select_first-test :
      (p : A → Bool) (xs : List A) {a : A} → select_first p xs ≡ some a → p a ≡ true
  unfolding select_first
  select_first-test p [] {a = a} h = cc
  select_first-test p (x ∷ xs) {a = a} h = ground (arith, select_first-test p xs {a = a})

  pub update-none :
      (p : A → Bool) (f : A → A) (xs : List A) → exists p xs ≡ false → update p f xs ≡ xs
  unfolding exists update
  update-none p f [] h = refl
  update-none p f (x ∷ xs) h = ground (arith, update-none p f xs)

  pub updated_first-none :
      (p : A → Bool) (f : A → A) (xs : List A) → exists p xs ≡ false → updated_first p f xs ≡ none
  unfolding exists updated_first
  updated_first-none p f [] h = refl
  updated_first-none p f (x ∷ xs) h = ground (arith, updated_first-none p f xs)

  kept :
      (q : A → Bool) (f : A → A) (a : A)
      → q a ≡ true
      → map_row (λ x. if q x then f x else x) (some a) ≡ some (f a)
  kept q f a h = rw h

  -- The row that UPDATE ... RETURNING gives back.
  pub updated_first-found :
      (q : A → Bool) (f : A → A) (xs : List A) {a : A}
      → select_first q xs ≡ some a
      → updated_first q f xs ≡ some (f a)
  updated_first-found q f xs found = updated_first-eq q f xs ∙ ap (map_row f) found

  -- The row that is found after an update that hits it.
  pub select_first-updated :
      (p q : A → Bool) (f : A → A) (xs : List A) {a : A}
      → ((x : A) → p (f x) ≡ p x)
      → select_first p xs ≡ some a
      → q a ≡ true
      → select_first p (update q f xs) ≡ some (f a)
  select_first-updated p q f xs {a = a} same found hit =
      select_first-update p q f xs same
      ∙ ap (map_row (λ x. if q x then f x else x)) found
      ∙ kept q f a hit

  pub select_first-and :
      (p q : A → Bool) (xs : List A) {a : A}
      → select_first p xs ≡ some a
      → q a ≡ true
      → select_first (λ x. p x && q x) xs ≡ some a
  unfolding select_first
  select_first-and p q [] {a = a} h g = cc
  select_first-and p q (x ∷ xs) {a = a} h g = ground (arith, select_first-and p q xs {a = a})

  pub none-exists : (p : A → Bool) (xs : List A) → exists p xs ≡ false → select_first p xs ≡ none
  unfolding exists select_first
  none-exists p [] h = refl
  none-exists p (x ∷ xs) h = ground (arith, none-exists p xs)

  pub exists-insert :
      (p : A → Bool) (a : A) (xs : List A) → p a ≡ true → exists p (insert a xs) ≡ true
  unfolding exists insert
  exists-insert p a [] h = ground arith
  exists-insert p a (x ∷ xs) h = ground (arith, exists-insert p a xs h)

  -- A test that an update keeps.
  pub exists-update :
      (p q : A → Bool) (f : A → A) (xs : List A)
      → ((x : A) → p (f x) ≡ p x)
      → exists p (update q f xs) ≡ exists p xs
  unfolding exists update
  exists-update p q f [] keep = refl
  exists-update p q f (x ∷ xs) keep = ground (arith, keep x, exists-update p q f xs keep)

  pub length-update : (p : A → Bool) (f : A → A) (xs : List A) → length (update p f xs) ≡ length xs
  unfolding update
  length-update p f [] = refl
  length-update p f (x ∷ xs) = ground (arith, length-update p f xs)

  pub updated-none :
      (p : A → Bool) (f : A → A) (xs : List A) → exists p xs ≡ false → updated p f xs ≡ []
  unfolding exists updated
  updated-none p f [] h = refl
  updated-none p f (x ∷ xs) h = ground (arith, updated-none p f xs)

  -- An update after which its own test fails leaves no row that passes it.
  pub exists-after :
      (p : A → Bool) (f : A → A) (xs : List A)
      → ((x : A) → p (f x) ≡ false)
      → exists p (update p f xs) ≡ false
  unfolding exists update
  exists-after p f [] miss = refl
  exists-after p f (x ∷ xs) miss = ground (arith, miss x, exists-after p f xs miss)

pub both : (a b : Bool) → a ≡ true → b ≡ true → (a && b) ≡ true
both a b h g = rw (h, g)

pub same_number : (n : ℕ) → (n == n) ≡ true
same_number n = ground arith

pub one_less : (n : ℕ) → suc n - 1 ≡ n
one_less n = omega arith
