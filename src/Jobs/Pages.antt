-- ===== src/Jobs/Pages.antt =====
-- What the pages of getJobs hold together.
use zolt.Prelude.{ℕ, zero, suc, List, [], ◌++◌, some}
use zolt.Schema.{Db, Job}
use zolt.Jobs.Listing.{GetJobsQuery, page_jobs}

-- The pages 1 to n of a query, one behind the other.
abbrev pub first_pages : GetJobsQuery → Db → ℕ → List Job
first_pages q db zero = []
first_pages q db (suc n) = first_pages q db n ++ page_jobs (record q { page = some (suc n) }) db
