-- ===== src/Migrations/Restored.antt =====
-- That the migrations go up and down again, as far as the status checks are concerned.
use zolt.Prelude.{
  text_eq, ℕ, zero, suc, ◌≡◌, refl, Bool, true, false, Option, none, some, List, [], ◌∷◌, ◌++◌,
  Text,
}
use zolt.Migrations.{Migration}
use zolt.Migrations.History.{listed, before_fix, after_fix}
use zolt.Migrations.Tracking.{Known, unknown, known, track_all}
use zolt.Migrations.Statuses.{check_name, table_name, StatusTable}

-- Without the migration of leases.worker_id, which create-lease-table makes unnecessary.
abbrev pub without_fix : List Migration
without_fix = before_fix ++ after_fix

abbrev pub get_elem? : {A : Type 0} → List A → ℕ → Option A
get_elem? [] i = none
get_elem? (x ∷ xs) zero = some x
get_elem? (x ∷ xs) (suc i) = get_elem? xs i

abbrev pub is_known : Known → Bool
is_known unknown = false
is_known (known o) = true

-- A migration that goes up and down again leaves what is known of a constraint, from the first to the last.
abbrev pub Restored : Text → Text → Known → List Migration → Type 0
Restored table name k [] = Unit
Restored table name k (m ∷ ms) =
    (is_known k ≡ true)
    × (track_all table name (m.up ++ m.down) k ≡ k)
    × Restored table name (track_all table name m.up k) ms

pub all-Restored :
    (c : StatusTable) → Restored (table_name c) (check_name c) (known none) without_fix
unfolding track_all listed text_eq
all-Restored StatusTable.jobs = (
  refl,
  refl,
  (
    refl,
    refl,
    (
      refl,
      refl,
      (
        refl,
        refl,
        (
          refl,
          refl,
          (
            refl,
            refl,
            (
              refl,
              refl,
              (
                refl,
                refl,
                (
                  refl,
                  refl,
                  (
                    refl,
                    refl,
                    (refl, refl, (refl, refl, (refl, refl, (refl, refl, (refl, refl, tt))))),
                  ),
                ),
              ),
            ),
          ),
        ),
      ),
    ),
  ),
)
all-Restored StatusTable.executions = (
  refl,
  refl,
  (
    refl,
    refl,
    (
      refl,
      refl,
      (
        refl,
        refl,
        (
          refl,
          refl,
          (
            refl,
            refl,
            (
              refl,
              refl,
              (
                refl,
                refl,
                (
                  refl,
                  refl,
                  (
                    refl,
                    refl,
                    (refl, refl, (refl, refl, (refl, refl, (refl, refl, (refl, refl, tt))))),
                  ),
                ),
              ),
            ),
          ),
        ),
      ),
    ),
  ),
)
all-Restored StatusTable.idempotency_records = (
  refl,
  refl,
  (
    refl,
    refl,
    (
      refl,
      refl,
      (
        refl,
        refl,
        (
          refl,
          refl,
          (
            refl,
            refl,
            (
              refl,
              refl,
              (
                refl,
                refl,
                (
                  refl,
                  refl,
                  (
                    refl,
                    refl,
                    (refl, refl, (refl, refl, (refl, refl, (refl, refl, (refl, refl, tt))))),
                  ),
                ),
              ),
            ),
          ),
        ),
      ),
    ),
  ),
)
all-Restored StatusTable.outbox = (
  refl,
  refl,
  (
    refl,
    refl,
    (
      refl,
      refl,
      (
        refl,
        refl,
        (
          refl,
          refl,
          (
            refl,
            refl,
            (
              refl,
              refl,
              (
                refl,
                refl,
                (
                  refl,
                  refl,
                  (
                    refl,
                    refl,
                    (refl, refl, (refl, refl, (refl, refl, (refl, refl, (refl, refl, tt))))),
                  ),
                ),
              ),
            ),
          ),
        ),
      ),
    ),
  ),
)
