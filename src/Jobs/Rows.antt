-- ===== src/Jobs/Rows.antt =====
-- The row of a job before and after an update of its status (src/modules/jobs/jobs.repository.ts).
use zolt.Prelude.{
  ℕ, ◌≡◌, refl, Bool, true, some, List, select_first, update, updated_first, ◌&&◌, ◌==◌,
  select_first-and, select_first-test, select_first-updated, updated_first-found, both,
}
use zolt.Schema.{Job, JobStatus}

abbrev pub finish : JobStatus → ℕ → Job → Job
finish s now j = record j { status = s; updated_at = now }

pub job_updated :
    (from : JobStatus → Bool) (s : JobStatus) (id now : ℕ) (js : List Job) {j : Job}
    → select_first (λ x. x.id == id) js ≡ some j
    → from j.status ≡ true
    → updated_first (λ x. x.id == id && from x.status) (finish s now) js ≡ some (finish s now j)
job_updated from s id now js found live =
    updated_first-found _ (finish s now) js
      (select_first-and (λ x. x.id == id) (λ x. from x.status) js found live)

pub job_found :
    (from : JobStatus → Bool) (s : JobStatus) (id now : ℕ) (js : List Job) {j : Job}
    → select_first (λ x. x.id == id) js ≡ some j
    → from j.status ≡ true
    → select_first (λ x. x.id == id) (update (λ x. x.id == id && from x.status) (finish s now) js)
      ≡ some (finish s now j)
job_found from s id now js {j = j} found live =
    select_first-updated (λ x. x.id == id) (λ x. x.id == id && from x.status) (finish s now) js
      (λ x. refl) found
      (both (j.id == id) (from j.status) (select_first-test (λ x. x.id == id) js found) live)
