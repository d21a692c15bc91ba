-- ===== src/Prelude/Keys.antt =====
-- Tables whose rows carry a key that grows along the table, as ids that are given out in turn do.
use Prim.Native.Nat.{ℕ, zero, suc, ◌≤◌}
use mathlib.Core.Path.{◌≡◌, refl, fun_ext}
use mathlib.Core.Logic.{inl, inr}
use mathlib.Core.Bool.{Bool, true, false}
use mathlib.Core.List.{List, [], ◌∷◌, ◌++◌, map}
use native.Mathlib.Omega.{arith}
use zolt.Prelude.Tests.{Bool-cases, if◌then◌else◌}
use zolt.Prelude.Lists.{take}
use zolt.Prelude.Table.{update, insert, select, exists}
use zolt.Prelude.Sort.{contains}

abbrev pub AllRows {ℓ} : {A : Type 0} → (A → Type ℓ) → List A → Type ℓ
AllRows P [] = Unit
AllRows P (x ∷ xs) = P x × AllRows P xs

pub AllRows-map {ℓ κ} :
    {A : Type 0} {P : A → Type ℓ} {Q : A → Type κ} (xs : List A)
    → ((x : A) → P x → Q x)
    → AllRows P xs
    → AllRows Q xs
AllRows-map [] f h = tt
AllRows-map (x ∷ xs) f h = (f x h.0, AllRows-map xs f h.1)

module _ {A : Type 0} (key : A → ℕ) where
  -- The keys grow along the table, from `lo` on and below `hi`.
  abbrev pub Ascends : ℕ → ℕ → List A → Type 0
  Ascends lo hi [] = lo ≤ hi
  Ascends lo hi (x ∷ xs) = (lo ≤ key x) × Ascends (suc (key x)) hi xs

  pub Ascends-mono : (lo hi hi' : ℕ) (xs : List A) → hi ≤ hi' → Ascends lo hi xs → Ascends lo hi' xs
  Ascends-mono lo hi hi' [] h a = omega arith
  Ascends-mono lo hi hi' (x ∷ xs) h a = (a.0, Ascends-mono (suc (key x)) hi hi' xs h a.1)

  Ascends-append :
      (lo hi : ℕ) (a : A) (xs : List A)
      → key a ≡ hi
      → Ascends lo hi xs
      → Ascends lo (suc hi) (xs ++ a ∷ [])
  Ascends-append lo hi a [] e h = omega arith
  Ascends-append lo hi a (x ∷ xs) e h = (h.0, Ascends-append (suc (key x)) hi a xs e h.1)

  pub Ascends-insert :
      (lo hi : ℕ) (a : A) (xs : List A)
      → key a ≡ hi
      → Ascends lo hi xs
      → Ascends lo (suc hi) (insert a xs)
  unfolding insert
  Ascends-insert lo hi a xs e h = Ascends-append lo hi a xs e h

  pub Ascends-update :
      (hit : A → Bool) (set : A → A)
      → ((x : A) → key (set x) ≡ key x)
      → (lo hi : ℕ) (xs : List A) → Ascends lo hi xs
      → Ascends lo hi (update hit set xs)
  unfolding update
  Ascends-update hit set same lo hi [] h = h
  Ascends-update hit set same lo hi (x ∷ xs) h = elim (Bool-cases (hit x)) [
    | inl e ↦ rw (e, same x) (h.0, Ascends-update hit set same (suc (key x)) hi xs h.1)
    | inr e ↦ rw e (h.0, Ascends-update hit set same (suc (key x)) hi xs h.1)
  ]

  -- The keys of the first n rows that p selects, as an UPDATE ... WHERE id IN (SELECT ...) uses them.
  abbrev pub chosen : (A → Bool) → ℕ → List A → List ℕ
  chosen p n xs = map key (take n (select p xs))

  chosen_above :
      (p : A → Bool) (n lo hi k : ℕ) (xs : List A)
      → Ascends lo hi xs
      → contains (chosen p n xs) k ≡ true
      → lo ≤ k
  unfolding contains select
  chosen_above p zero lo hi k xs a h = cc
  chosen_above p (suc n) lo hi k [] a h = cc
  chosen_above p (suc n) lo hi k (x ∷ xs) a h = ground (
    arith,
    chosen_above p n (suc (key x)) hi k xs a.1,
    chosen_above p (suc n) (suc (key x)) hi k xs a.1,
  )

  AllRows-map_above {ℓ κ} :
      {P : A → Type ℓ} {Q : A → Type κ} (lo hi : ℕ) (xs : List A)
      → Ascends lo hi xs
      → ((y : A) → lo ≤ key y → P y → Q y)
      → AllRows P xs
      → AllRows Q xs
  AllRows-map_above lo hi [] a f h = tt
  AllRows-map_above lo hi (x ∷ xs) a f h =
      (f x a.0 h.0, AllRows-map_above (suc (key x)) hi xs a.1 (λ y b q. f y (omega arith) q) h.1)

  chosen_head :
      (p : A → Bool) (n lo hi : ℕ) (x : A) (xs : List A)
      → Ascends lo hi (x ∷ xs)
      → contains (chosen p n (x ∷ xs)) (key x) ≡ true
      → p x ≡ true
  unfolding contains select
  chosen_head p n lo hi x xs a h = ground (arith, chosen_above p n (suc (key x)) hi (key x) xs a.1)

  chosen_tail :
      (p : A → Bool) (n k : ℕ) (x : A) (xs : List A)
      → suc (key x) ≤ k
      → contains (chosen p (suc n) (x ∷ xs)) k ≡ true
      → contains (if p x then chosen p n xs else chosen p (suc n) xs) k ≡ true
  unfolding contains select
  chosen_tail p n k x xs above h = ground arith

  chosen_rest :
      (p : A → Bool) (n : ℕ) (x : A) (xs : List A)
      → ((m : ℕ) → AllRows (λ y. contains (chosen p m xs) (key y) ≡ true → p y ≡ true) xs)
      → AllRows
          (λ y.
            contains (if p x then chosen p n xs else chosen p (suc n) xs) (key y) ≡ true
            → p y ≡ true)
          xs
  chosen_rest p n x xs all = elim (Bool-cases (p x)) [
    | inl e ↦ rw e (all n)
    | inr e ↦ rw e (all (suc n))
  ]

  none_chosen :
      (p : A → Bool) (ys xs : List A)
      → AllRows (λ y. contains (chosen p 0 ys) (key y) ≡ true → p y ≡ true) xs
  unfolding contains
  none_chosen p ys [] = tt
  none_chosen p ys (x ∷ xs) = ((λ h. cc), none_chosen p ys xs)

  -- The rows whose key is chosen are rows that p selects: the key names one row.
  pub chosen-AllRows :
      (p : A → Bool) (lo hi : ℕ) (xs : List A) (n : ℕ)
      → Ascends lo hi xs
      → AllRows (λ x. contains (chosen p n xs) (key x) ≡ true → p x ≡ true) xs
  chosen-AllRows p lo hi [] n a = tt
  chosen-AllRows p lo hi (x ∷ xs) zero a = none_chosen p (x ∷ xs) (x ∷ xs)
  chosen-AllRows p lo hi (x ∷ xs) (suc n) a = (
    chosen_head p (suc n) lo hi x xs a,
    AllRows-map_above (suc (key x)) hi xs a.1
        (λ y above q h. q (chosen_tail p n (key y) x xs above h))
        (chosen_rest p n x xs (λ m. chosen-AllRows p (suc (key x)) hi xs m a.1)),
  )

-- No two rows of the table agree, by a test of a row against another, as a unique constraint demands.
module _ {A : Type 0} (same : A → A → Bool) where
  abbrev pub Distinct : List A → Type 0
  Distinct [] = Unit
  Distinct (x ∷ xs) = (exists (same x) xs ≡ false) × Distinct xs

  exists-update :
      (p : A → Bool) (hit : A → Bool) (set : A → A)
      → ((x : A) → p (set x) ≡ p x)
      → (xs : List A) → exists p (update hit set xs) ≡ exists p xs
  unfolding exists update
  exists-update p hit set keep [] = refl
  exists-update p hit set keep (x ∷ xs) = ground (arith, keep x, exists-update p hit set keep xs)

  pub Distinct-update :
      (hit : A → Bool) (set : A → A)
      → ((x y : A) → same (set x) y ≡ same x y)
      → ((x y : A) → same x (set y) ≡ same x y)
      → (xs : List A) → Distinct xs
      → Distinct (update hit set xs)
  unfolding update
  Distinct-update hit set left right [] h = tt
  Distinct-update hit set left right (x ∷ xs) h = elim (Bool-cases (hit x)) [
    | inl e ↦
        rw (e, exists-update (same (set x)) hit set (right (set x)) xs, fun_ext (left x))
          (h.0, Distinct-update hit set left right xs h.1)
    | inr e ↦
        rw (e, exists-update (same x) hit set (right x) xs)
          (h.0, Distinct-update hit set left right xs h.1)
  ]

  exists-append :
      (p : A → Bool) (a : A) (xs : List A)
      → exists p xs ≡ false
      → p a ≡ false
      → exists p (xs ++ a ∷ []) ≡ false
  unfolding exists
  exists-append p a [] h k = ground arith
  exists-append p a (x ∷ xs) h k = ground (arith, exists-append p a xs)

  Distinct-append :
      (a : A)
      → ((x : A) → same x a ≡ same a x)
      → (xs : List A) → exists (same a) xs ≡ false
      → Distinct xs
      → Distinct (xs ++ a ∷ [])
  unfolding exists
  Distinct-append a symmetric [] h d = (refl, tt)
  Distinct-append a symmetric (x ∷ xs) h d = (
    exists-append (same x) a xs d.0 (ground (arith, symmetric x)),
    Distinct-append a symmetric xs (ground arith) d.1,
  )

  pub Distinct-insert :
      (a : A)
      → ((x : A) → same x a ≡ same a x)
      → (xs : List A) → exists (same a) xs ≡ false
      → Distinct xs
      → Distinct (insert a xs)
  unfolding insert
  Distinct-insert = Distinct-append
