-- ===== src/Scheduler/Claimed.antt =====
-- The rows of the outbox that a tick claims and gives back (src/modules/scheduler/scheduler.service.ts): lists.
use zolt.Prelude.{
  inr, inl, Bool-cases, ℕ, ◌≡◌, ◌∙◌, ap, refl, Bool, true, false, ◌&&◌, ◌||◌, List, [], ◌∷◌, ◌++◌,
  arith, if◌then◌else◌, select, update, updated, contains, AllRows,
}
use zolt.Scheduler.Service.{has_job, has_execution}
use zolt.Schema.{Outbox, outbox_published}
use zolt.Outbox.{ids_of, publish, unpublish}
use zolt.Scheduler.Service.{has_job, has_execution}

abbrev pub has_target : Outbox → Bool
has_target o = has_job o || has_execution o

contains-append :
    (n : ℕ) (xs ys : List ℕ) → contains (xs ++ ys) n ≡ (contains xs n || contains ys n)
unfolding contains
contains-append n [] ys = refl
contains-append n (x ∷ xs) ys = ground (arith, contains-append n xs ys)

targets_or :
    (n : ℕ) (rows : List Outbox)
    → AllRows (λ o. has_target o ≡ true) rows
    → (contains (ids_of (select has_job rows)) n || contains (ids_of (select has_execution rows)) n)
      ≡ contains (ids_of rows) n
unfolding contains select
targets_or n [] t = refl
targets_or n (o ∷ os) t = ground (arith, t.0, targets_or n os t.1)

-- The rows of both kinds are all the rows.
targets-all :
    (n : ℕ) (rows : List Outbox)
    → AllRows (λ o. has_target o ≡ true) rows
    → contains (ids_of (select has_job rows) ++ ids_of (select has_execution rows)) n
      ≡ contains (ids_of rows) n
targets-all n rows t =
    contains-append n (ids_of (select has_job rows)) (ids_of (select has_execution rows))
    ∙ targets_or n rows t

pub claimed_targets :
    (ids : List ℕ) (now : ℕ) (xs : List Outbox)
    → AllRows (λ o. has_target o ≡ true) xs
    → AllRows (λ o. has_target o ≡ true) (updated (λ o. contains ids o.id) (publish now) xs)
unfolding updated
claimed_targets ids now [] t = tt
claimed_targets ids now (o ∷ os) t = elim (Bool-cases (contains ids o.id)) [
  | inl h ↦ rw h (t.0, claimed_targets ids now os t.1)
  | inr h ↦ rw h (claimed_targets ids now os t.1)
]

claimed_ids :
    (ids : List ℕ) (now n : ℕ) (xs : List Outbox)
    → contains (ids_of (updated (λ o. contains ids o.id) (publish now) xs)) n
      ≡ (contains ids n && contains (ids_of xs) n)
unfolding updated contains
claimed_ids ids now n [] = ground arith
claimed_ids ids now n (o ∷ os) = grind (arith, claimed_ids ids now n os)

-- Where a second list of ids agrees with the first on the rows that are there, the reset takes back the claim.
pub taken_back :
    (ids all : List ℕ) (now : ℕ) (xs : List Outbox)
    → ((n : ℕ) → contains (ids_of xs) n ≡ true → contains all n ≡ contains ids n)
    → update
        (λ o. contains all o.id && outbox_published o.status)
        (unpublish now)
        (update (λ o. contains ids o.id) (publish now) xs)
      ≡ update (λ o. contains ids o.id) (unpublish now) xs
unfolding update contains
taken_back ids all now [] h = refl
taken_back ids all now (o ∷ os) h = elim (Bool-cases (contains ids o.id)) [
  | inl g ↦
      rw (g, h o.id (ground arith), g, taken_back ids all now os (λ n k. h n (ground (arith, k))))
        refl
  | inr g ↦
      rw (g, h o.id (ground arith), g, taken_back ids all now os (λ n k. h n (ground (arith, k))))
        refl
]

head_case :
    (p : Outbox → Bool) (b : Bool) (o x : Outbox) (os ys : List Outbox)
    → p x ≡ b
    → (if b then x ∷ ys else ys) ≡ o ∷ os
    → (ys ≡ o ∷ os → p o ≡ true)
    → p o ≡ true
head_case p true o x os ys g k later = cc
head_case p false o x os ys g k later = later k

pub select-head :
    (p : Outbox → Bool) (o : Outbox) (os xs : List Outbox) → select p xs ≡ o ∷ os → p o ≡ true
unfolding select
select-head p o os [] h = cc
select-head p o os (x ∷ xs) h =
    head_case p (p x) o x os (select p xs) refl h (λ k. select-head p o os xs k)

pub untargeted :
    (rows : List Outbox)
    → select has_job rows ≡ []
    → select has_execution rows ≡ []
    → AllRows (λ o. has_target o ≡ true) rows
    → rows ≡ []
unfolding select
untargeted [] h g t = refl
untargeted (o ∷ os) h g t = targetless (has_job o) (has_execution o) h g t.0
  where
    targetless :
        (a b : Bool)
        → (if a then o ∷ select has_job os else select has_job os) ≡ []
        → (if b then o ∷ select has_execution os else select has_execution os) ≡ []
        → (a || b) ≡ true
        → o ∷ os ≡ []
    targetless true b h g t = cc
    targetless false true h g t = cc
    targetless false false h g t = cc

and_true : (b : Bool) → (b && true) ≡ b
and_true b = ground arith

-- If an update returns no row, it has hit none.
pub no_hits :
    (ids : List ℕ) (f g : Outbox → Outbox) (xs : List Outbox)
    → updated (λ o. contains ids o.id) f xs ≡ []
    → update (λ o. contains ids o.id) f xs ≡ update (λ o. contains ids o.id) g xs
unfolding updated update
no_hits ids f g [] h = refl
no_hits ids f g (x ∷ xs) h = hit_case (contains ids x.id) h (λ k. no_hits ids f g xs k)
  where
    hit_case :
        (b : Bool)
        → (if b
            then f x ∷ updated (λ o. contains ids o.id) f xs
            else updated (λ o. contains ids o.id) f xs)
          ≡ []
        → (updated (λ o. contains ids o.id) f xs ≡ []
            → update (λ o. contains ids o.id) f xs ≡ update (λ o. contains ids o.id) g xs)
        → (if b then f x else x) ∷ update (λ o. contains ids o.id) f xs
          ≡ (if b then g x else x) ∷ update (λ o. contains ids o.id) g xs
    hit_case true k rest = cc
    hit_case false k rest = ap (λ ys. x ∷ ys) (rest k)

pub agreed :
    (ids : List ℕ) (now : ℕ) (xs : List Outbox)
    → AllRows (λ o. has_target o ≡ true) xs
    → let rows = updated (λ o. contains ids o.id) (publish now) xs in
      (n : ℕ)
      → contains (ids_of xs) n ≡ true
      → contains (ids_of (select has_job rows) ++ ids_of (select has_execution rows)) n
        ≡ contains ids n
agreed ids now xs t n there =
    targets-all n (updated (λ o. contains ids o.id) (publish now) xs) (claimed_targets ids now xs t)
    ∙ claimed_ids ids now n xs
    ∙ ap (λ b. contains ids n && b) there
    ∙ and_true (contains ids n)
