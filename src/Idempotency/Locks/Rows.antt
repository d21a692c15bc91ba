-- ===== src/Idempotency/Locks/Rows.antt =====
-- The records that an UPDATE of one key hits, and the locks after it.
use zolt.Prelude.{
  both, select_first-updated, select_first-update, select_first-test, updated-none, exists-update,
  ℕ, ◌≡◌, refl, sym, ap, ◌∙◌, Bool, true, false, if◌then◌else◌, Option, none, some, List, [], ◌∷◌,
  Text, text_eq, text_eq→eq, text_eq_refl, length, map_row, select_first, update, updated, exists,
  Bool-cases, inl, inr, arith, fun_ext,
}
use zolt.Schema.{Db, IdempotencyRecord, IdempotencyStatus}
use zolt.Idempotency.{keyed, moved_to}
use zolt.Idempotency.Locks.{status_of, put, of_key, locks_of, UniqueKeys}

module _ (k : Text) (from : IdempotencyStatus → Bool) where
  weaker :
      (rs : List IdempotencyRecord)
      → exists (of_key k) rs ≡ false
      → exists (keyed k from) rs ≡ false
  unfolding exists
  weaker [] h = refl
  weaker (r ∷ rs) h = ground (arith, weaker rs)

  no_other :
      (x : Text) (rs : List IdempotencyRecord)
      → text_eq x k ≡ true
      → exists (of_key x) rs ≡ false
      → exists (keyed k from) rs ≡ false
  no_other x rs e h = weaker rs (rw (sym (text_eq→eq x k e)) h)

  -- The count of the rows of an update.
  pub one_hit :
      (f : IdempotencyRecord → IdempotencyRecord) (rs : List IdempotencyRecord)
      {r : IdempotencyRecord}
      → UniqueKeys rs
      → select_first (of_key k) rs ≡ some r
      → from r.status ≡ true
      → length (updated (keyed k from) f rs) ≡ 1
  unfolding select_first updated
  one_hit f [] {r = r} u h g = cc
  one_hit f (x ∷ rs) {r = r} u h g =
      ground (
        arith,
        no_other x.idempotency_key rs,
        updated-none (keyed k from) f rs,
        one_hit f rs {r = r},
      )

  pub no_hit :
      (rs : List IdempotencyRecord) {r : IdempotencyRecord}
      → UniqueKeys rs
      → select_first (of_key k) rs ≡ some r
      → from r.status ≡ false
      → exists (keyed k from) rs ≡ false
  unfolding select_first exists
  no_hit [] {r = r} u h g = refl
  no_hit (x ∷ rs) {r = r} u h g = ground (arith, no_other x.idempotency_key rs, no_hit rs {r = r})

  pub absent_hit :
      (rs : List IdempotencyRecord)
      → select_first (of_key k) rs ≡ none
      → exists (keyed k from) rs ≡ false
  unfolding select_first exists
  absent_hit [] h = refl
  absent_hit (x ∷ rs) h = ground (arith, absent_hit rs)

  pub update-UniqueKeys :
      (f : IdempotencyRecord → IdempotencyRecord) (rs : List IdempotencyRecord)
      → ((r : IdempotencyRecord) → (f r).idempotency_key ≡ r.idempotency_key)
      → UniqueKeys rs
      → UniqueKeys (update (keyed k from) f rs)
  unfolding update
  update-UniqueKeys f [] same u = tt
  update-UniqueKeys f (r ∷ rs) same u = elim (Bool-cases (keyed k from r)) [
    | inl e ↦
        rw (e, same r)
          (
            exists-update (of_key r.idempotency_key) (keyed k from) f rs
                  (λ x. ap (λ t. text_eq t r.idempotency_key) (same x))
                ∙ u.0,
            update-UniqueKeys f rs same u.1,
          )
    | inr e ↦ rw e (
      exists-update (of_key r.idempotency_key) (keyed k from) f rs
            (λ x. ap (λ t. text_eq t r.idempotency_key) (same x))
          ∙ u.0,
      update-UniqueKeys f rs same u.1,
    )
  ]

-- The table after an UPDATE of the record of a key.
abbrev pub moved : Text → (IdempotencyStatus → Bool) → IdempotencyStatus → Option ℕ → ℕ → Db → Db
moved k from s started now d = record d {
  idempotency_records = update (keyed k from) (moved_to s started now) d.idempotency_records;
}

other_row :
    (k : Text) (from : IdempotencyStatus → Bool) (s : IdempotencyStatus) (started : Option ℕ)
    (now : ℕ) (k' : Text) (rs : List IdempotencyRecord) (o : Option IdempotencyRecord)
    → select_first (of_key k') rs ≡ o
    → text_eq k' k ≡ false
    → map_row status_of (map_row (λ x. if keyed k from x then moved_to s started now x else x) o)
      ≡ map_row status_of o
other_row k from s started now k' rs none h e = refl
other_row k from s started now k' rs (some y) h e =
    rw (text_eq→eq y.idempotency_key k' (select_first-test (of_key k') rs h), e) refl

pub locks_of-moved :
    (k : Text) (from : IdempotencyStatus → Bool) (s : IdempotencyStatus) (started : Option ℕ)
    (now : ℕ) (d : Db) {r : IdempotencyRecord}
    → select_first (of_key k) d.idempotency_records ≡ some r
    → from r.status ≡ true
    → locks_of (moved k from s started now d) ≡ put k s (locks_of d)
unfolding locks_of
locks_of-moved k from s started now d {r = r} h g = fun_ext λ k'. elim (Bool-cases (text_eq k' k)) [
  | inl e ↦
      rw (text_eq→eq k' k e, text_eq_refl k)
        (ap (map_row status_of) (
          select_first-updated (of_key k) (keyed k from) (moved_to s started now)
            d.idempotency_records (λ x. refl) h
            (both (text_eq r.idempotency_key k) (from r.status)
              (select_first-test (of_key k) d.idempotency_records h) g)))
  | inr e ↦ rw e (
      ap (map_row status_of) (
        select_first-update (of_key k') (keyed k from) (moved_to s started now)
          d.idempotency_records (λ x. refl))
      ∙ other_row k from s started now k' d.idempotency_records _ refl e)
]
