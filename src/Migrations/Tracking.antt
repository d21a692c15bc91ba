-- ===== src/Migrations/Tracking.antt =====
-- What is known of one constraint while operations run, without a database: an abstract interpretation of the
-- operations, with its soundness for any catalog that keeps to the laws.
use zolt.Prelude.{
  arith, ◌||◌, ◌≡◌, refl, sym, ap, ◌∙◌, Bool, true, false, ◌&&◌, ◌||◌, Bool-cases, Option-cases,
  Option, none, some, List, [], ◌∷◌, ◌++◌, Text, text_eq, text_eq→eq, inl, inr,
}
use zolt.Migrations.{
  Operation, Column, Constraint, create_table, add_columns, drop_table, drop_columns, alter_column,
  add_constraint, drop_constraint, create_index, drop_index, delete_from,
}
use zolt.Migrations.History.{
  Catalog, IsCatalog, run_all, touches, spares, listed, table_constraints,
}

pub data Known : Type 0 where
  unknown : Known
  known : Option Constraint → Known

unfoldable when : Bool → Known → Known → Known
when true a b = a
when false a b = b

unfoldable spare : List Text → Known → Known
unfolding when spares
spare cs unknown = unknown
spare cs (known o) = when (spares cs o) (known o) unknown

module _ (table name : Text) where
  unfoldable pub track : Operation → Known → Known
  unfolding when spare touches listed table_constraints
  track (create_table t cs) k =
      when (text_eq table t) (when (listed name (table_constraints t cs)) unknown (known none)) k
  track (drop_table t) k = when (text_eq table t) (known none) k
  track (drop_columns t cs) k = when (text_eq table t) (spare cs k) k
  track (add_constraint t n c) k = when (text_eq table t && text_eq name n) (known (some c)) k
  track (drop_constraint t n b) k = when (text_eq table t && text_eq name n) (known none) k
  track op k = when (touches table name op) unknown k

  unfoldable pub track_all : List Operation → Known → Known
  unfolding track
  track_all [] k = k
  track_all (op ∷ ops) k = track_all ops (track op k)

  -- Dropping a constraint that is known to be missing.
  unfoldable refuses : Known → Operation → Bool
  refuses (known none) (drop_constraint t n false) = text_eq table t && text_eq name n
  refuses _ _ = false

  unfoldable pub refuted : Known → List Operation → Bool
  unfolding refuses track
  refuted k [] = false
  refuted k (op ∷ ops) = refuses k op || refuted (track op k) ops

and_left : (a b : Bool) → (a && b) ≡ true → a ≡ true
and_left true b h = refl
and_left false b h = h

and_right : (a b : Bool) → (a && b) ≡ true → b ≡ true
and_right true b h = h
and_right false b h = ground arith

pub or_right : (a b : Bool) → a ≡ false → (a || b) ≡ true → b ≡ true
or_right a b e h = ground arith

none_is_not : {S : Type 0} (P : Type 0) (s : S) → none ≡ some s → P
none_is_not P s h = ground arith

module _ {S : Type 0} (catalog : Catalog S) (laws : IsCatalog catalog) (table name : Text) where
  -- What is known is true of a state of the catalog.
  abbrev pub Holds : Known → S → Type 0
  Holds unknown s = Unit
  Holds (known o) s = catalog.constraint table name s ≡ o

  same-Holds :
      (k : Known) (s s' : S)
      → catalog.constraint table name s' ≡ catalog.constraint table name s
      → Holds k s
      → Holds k s'
  same-Holds unknown s s' e h = tt
  same-Holds (known o) s s' e h = e ∙ h

  when-Holds :
      (b : Bool) (k l : Known) (s : S)
      → (b ≡ true → Holds k s)
      → (b ≡ false → Holds l s)
      → Holds (when b k l) s
  unfolding when
  when-Holds true k l s f g = f refl
  when-Holds false k l s f g = g refl

  touched-Holds :
      (op : Operation) (k : Known) (s s' : S)
      → catalog.run op s ≡ some s'
      → Holds k s
      → Holds (when (touches table name op) unknown k) s'
  touched-Holds op k s s' r h =
      when-Holds _ unknown k s' (λ _. tt)
        (λ e. same-Holds k s s' (laws.kept table name op s s' r e) h)

  created-Holds :
      (t : Text) (cs : List Column) (s s' : S)
      → catalog.run (create_table t cs) s ≡ some s'
      → text_eq table t ≡ true
      → Holds (when (listed name (table_constraints t cs)) unknown (known none)) s'
  created-Holds t cs s s' r e =
      when-Holds _ unknown (known none) s' (λ _. tt)
        (λ f. rw (text_eq→eq table t e) (laws.created t name cs s s' r f))

  spare-Holds :
      (t : Text) (cs : List Text) (k : Known) (s s' : S)
      → catalog.run (drop_columns t cs) s ≡ some s'
      → text_eq table t ≡ true
      → Holds k s
      → Holds (spare cs k) s'
  unfolding spare
  spare-Holds t cs unknown s s' r e h = tt
  spare-Holds t cs (known o) s s' r e h =
      when-Holds _ (known o) unknown s'
        (λ f. laws.spared table name cs s s' (rw (text_eq→eq table t e) r) (rw h f) ∙ h) (λ _. tt)

  constraint-Holds :
      (op : Operation) (t n : Text) (o : Option Constraint) (k : Known) (s s' : S)
      → catalog.run op s ≡ some s'
      → catalog.constraint t n s' ≡ o
      → touches table name op ≡ text_eq table t && text_eq name n
      → Holds k s
      → Holds (when (text_eq table t && text_eq name n) (known o) k) s'
  constraint-Holds op t n o k s s' r a e h =
      when-Holds _ (known o) k s'
        (λ f.
          rw
            (
              text_eq→eq table t (and_left _ _ f),
              text_eq→eq name n (and_right (text_eq table t) _ f),
            )
            a)
        (λ f. same-Holds k s s' (laws.kept table name op s s' r (e ∙ f)) h)

  track-Holds :
      (op : Operation) (k : Known) (s s' : S)
      → catalog.run op s ≡ some s'
      → Holds k s
      → Holds (track table name op k) s'
  unfolding track touches
  track-Holds (create_table t cs) k s s' r h =
      when-Holds _ _ k s' (created-Holds t cs s s' r)
        (λ e. same-Holds k s s' (laws.kept table name (create_table t cs) s s' r e) h)
  track-Holds (drop_table t) k s s' r h =
      when-Holds _ (known none) k s'
        (λ e. rw (text_eq→eq table t e) (laws.table_dropped t name s s' r))
        (λ e. same-Holds k s s' (laws.kept table name (drop_table t) s s' r e) h)
  track-Holds (drop_columns t cs) k s s' r h =
      when-Holds _ _ k s' (λ e. spare-Holds t cs k s s' r e h)
        (λ e. same-Holds k s s' (laws.kept table name (drop_columns t cs) s s' r e) h)
  track-Holds (add_constraint t n c) k s s' r h =
      constraint-Holds (add_constraint t n c) t n (some c) k s s' r (laws.added t n c s s' r) refl h
  track-Holds (drop_constraint t n b) k s s' r h =
      constraint-Holds (drop_constraint t n b) t n none k s s' r (laws.dropped t n b s s' r) refl h
  track-Holds (add_columns t cs) k s s' r h = touched-Holds (add_columns t cs) k s s' r h
  track-Holds (alter_column t c change) k s s' r h =
      touched-Holds (alter_column t c change) k s s' r h
  track-Holds (create_index t cs n b) k s s' r h = touched-Holds (create_index t cs n b) k s s' r h
  track-Holds (drop_index t cs n b) k s s' r h = touched-Holds (drop_index t cs n b) k s s' r h
  track-Holds (delete_from t c q) k s s' r h = touched-Holds (delete_from t c q) k s s' r h

  first-runs :
      (op : Operation) (ops : List Operation) (s s' : S)
      → catalog.run op s ≡ some s'
      → run_all catalog (op ∷ ops) s ≡ run_all catalog ops s'
  unfolding run_all
  first-runs op ops s s' e = ap (λ o. elim o [ none ↦ none | some s1 ↦ run_all catalog ops s1 ]) e

  first-fails :
      (op : Operation) (ops : List Operation) (s : S)
      → catalog.run op s ≡ none
      → run_all catalog (op ∷ ops) s ≡ none
  unfolding run_all
  first-fails op ops s e = ap (λ o. elim o [ none ↦ none | some s1 ↦ run_all catalog ops s1 ]) e

  -- What has been tracked is true of the state that the operations lead to.
  pub run_all-Holds :
      (ops : List Operation) (k : Known) (s s' : S)
      → run_all catalog ops s ≡ some s'
      → Holds k s
      → Holds (track_all table name ops k) s'
  unfolding run_all track_all
  run_all-Holds [] unknown s s' r h = tt
  run_all-Holds [] (known o) s s' r h = cc
  run_all-Holds (op ∷ ops) k s s' r h = elim (Option-cases (catalog.run op s)) [
    | inl e ↦ none_is_not _ s' (sym (first-fails op ops s e) ∙ r)
    | inr (s1, e) ↦
        run_all-Holds ops (track table name op k) s1 s' (sym (first-runs op ops s s1 e) ∙ r)
          (track-Holds op k s s1 e h)
  ]

  refuses-fails :
      (op : Operation) (k : Known) (s : S)
      → Holds k s
      → refuses table name k op ≡ true
      → catalog.run op s ≡ none
  unfolding refuses
  refuses-fails (drop_constraint t n false) (known none) s h r = laws.missing t n s (
      rw
        (
          sym (text_eq→eq table t (and_left _ _ r)),
          sym (text_eq→eq name n (and_right (text_eq table t) _ r)),
        )
        h)
  refuses-fails op k s h r = ground arith

  -- Operations that drop what is known to be missing do not run to the end.
  pub refuted-fails :
      (ops : List Operation) (k : Known) (s : S)
      → Holds k s
      → refuted table name k ops ≡ true
      → run_all catalog ops s ≡ none
  unfolding run_all refuted
  refuted-fails [] k s h r = ground arith
  refuted-fails (op ∷ ops) k s h r = elim (Bool-cases (refuses table name k op)) [
    | inl e ↦ first-fails op ops s (refuses-fails op k s h e)
    | inr e ↦ elim (Option-cases (catalog.run op s)) [
      | inl f ↦ first-fails op ops s f
      | inr (s1, f) ↦
          first-runs op ops s s1 f
          ∙ (refuted-fails ops (track table name op k) s1 (track-Holds op k s s1 f h)
              (or_right _ _ e r))
    ]
  ]

  pub run_all-append :
      (xs ys : List Operation) (s s' : S)
      → run_all catalog (xs ++ ys) s ≡ some s'
      → (s1 : S) × (run_all catalog xs s ≡ some s1) × (run_all catalog ys s1 ≡ some s')
  unfolding run_all
  run_all-append [] ys s s' r = (s, refl, r)
  run_all-append (op ∷ xs) ys s s' r = elim (Option-cases (catalog.run op s)) [
    | inl e ↦ none_is_not _ s' (sym (first-fails op (xs ++ ys) s e) ∙ r)
    | inr (s1, e) ↦
        let (s2, first, second) =
          run_all-append xs ys s1 s' (sym (first-runs op (xs ++ ys) s s1 e) ∙ r) in
        (s2, first-runs op xs s s1 e ∙ first, second)
  ]
