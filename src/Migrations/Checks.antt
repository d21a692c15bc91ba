-- ===== src/Migrations/Checks.antt =====
-- What migrations/ make of the status checks, and where they cannot run.
use zolt.Prelude.{
  ap, ◌∙◌, subst, sym, ◌↔◌, arith, text_eq, ℕ, zero, suc, ◌≡◌, refl, true, none, some, List, [],
  ◌∷◌, ◌++◌, take, Text, codes,
}
use zolt.Migrations.{Migration}
use zolt.Migrations.History.{Catalog, IsCatalog, run_all, listed, ups, all_migrations}
use zolt.Migrations.Tracking.{
  run_all-append, Holds, Known, unknown, known, track, track_all, refuted, run_all-Holds,
  refuted-fails,
}
use zolt.Migrations.Restored.{all-Restored, without_fix, get_elem?, Restored}
use zolt.Migrations.Statuses.{
  status_check-allows, status_text, StatusOf, check_name, allows, table_name, status_check,
  StatusTable,
}

tracked_check :
    (c : StatusTable)
    → track_all (table_name c) (check_name c) (ups without_fix) unknown
      ≡ known (some (status_check c))
unfolding ups track_all listed text_eq status_check
tracked_check StatusTable.jobs = refl
tracked_check StatusTable.executions = refl
tracked_check StatusTable.idempotency_records = refl
tracked_check StatusTable.outbox = refl

some-injective : {A : Type 0} (a b : A) → some a ≡ some b → a ≡ b
some-injective a b e = cc

module _ {S : Type 0} (catalog : Catalog S) (laws : IsCatalog catalog) where
  -- No database lets all migrations run one after the other: the constraint leases_worker_id_key that the
  -- migration of leases.worker_id drops is made by none before it.
  pub all_migrations-fail : (s : S) → run_all catalog (ups all_migrations) s ≡ none
  unfolding ups refuted track listed text_eq
  all_migrations-fail s =
      refuted-fails catalog laws (codes "leases") (codes "leases_worker_id_key")
        (ups all_migrations) unknown s tt refl

  check_after :
      (c : StatusTable) (s s' : S)
      → run_all catalog (ups without_fix) s ≡ some s'
      → catalog.constraint (table_name c) (check_name c) s' ≡ some (status_check c)
  check_after c s s' r =
      subst (λ k. Holds catalog laws (table_name c) (check_name c) k s') (tracked_check c)
        (run_all-Holds catalog laws (table_name c) (check_name c) (ups without_fix) unknown s s' r
          tt)

  -- Where the other migrations run to the end, a text passes the status check of a table just if it is the
  -- text of one of the statuses that the program writes there.
  pub status_checks-allow :
      (c : StatusTable) (s s' : S)
      → run_all catalog (ups without_fix) s ≡ some s'
      → (x : Text)
      → allows (catalog.constraint (table_name c) (check_name c) s') (codes "status") x ≡ true
        ↔ ((a : StatusOf c) × (status_text c a ≡ x))
  status_checks-allow c s s' r x = rw (check_after c s s' r) (status_check-allows c x)

  undone_once :
      (table name : Text) (m : Migration) (ms : List Migration) (k : Known) (s s' : S)
      → Restored table name k (m ∷ ms)
      → Holds catalog laws table name k s
      → run_all catalog (m.up ++ m.down) s ≡ some s'
      → catalog.constraint table name s' ≡ catalog.constraint table name s
  undone_once table name m ms unknown s s' h holds r = ground arith
  undone_once table name m ms (known o) s s' h holds r =
      subst (λ l. Holds catalog laws table name l s') h.1
        (run_all-Holds catalog laws table name (m.up ++ m.down) (known o) s s' r holds)
      ∙ sym holds

  undone_at :
      (table name : Text) (ms : List Migration) (i : ℕ) (m : Migration) (k : Known) (s s0 s' : S)
      → Restored table name k ms
      → Holds catalog laws table name k s
      → get_elem? ms i ≡ some m
      → run_all catalog (ups (take i ms)) s ≡ some s0
      → run_all catalog (m.up ++ m.down) s0 ≡ some s'
      → catalog.constraint table name s' ≡ catalog.constraint table name s0
  unfolding ups run_all
  undone_at table name [] i m k s s0 s' h holds e r r' = ground arith
  undone_at table name (m' ∷ ms) zero m k s s0 s' h holds e r r' =
      undone_once table name m' ms k s s' h holds (
        subst (λ n. run_all catalog (n.up ++ n.down) s ≡ some s') (sym (some-injective m' m e))
          (subst (λ u. run_all catalog (m.up ++ m.down) u ≡ some s') (sym (some-injective s s0 r))
            r'))
      ∙ ap (catalog.constraint table name) (some-injective s s0 r)
  undone_at table name (m' ∷ ms) (suc i) m k s s0 s' h holds e r r' =
      let (s1, first, rest) =
        run_all-append catalog laws table name m'.up (ups (take i ms)) s s0 r in
      undone_at table name ms i m (track_all table name m'.up k) s1 s0 s' h.2
        (run_all-Holds catalog laws table name m'.up k s s1 first holds) e rest r'

  -- After the migrations before it, each migration goes up and down again and leaves the status check of each
  -- table as it was, where the database had none to begin with and the operations run to the end.
  pub down-up :
      (c : StatusTable) (i : ℕ) (m : Migration) (s s0 s' : S)
      → catalog.constraint (table_name c) (check_name c) s ≡ none
      → get_elem? without_fix i ≡ some m
      → run_all catalog (ups (take i without_fix)) s ≡ some s0
      → run_all catalog (m.up ++ m.down) s0 ≡ some s'
      → catalog.constraint (table_name c) (check_name c) s'
        ≡ catalog.constraint (table_name c) (check_name c) s0
  down-up c i m s s0 s' n e r r' =
      undone_at (table_name c) (check_name c) without_fix i m (known none) s s0 s' (all-Restored c)
        n e r r'
