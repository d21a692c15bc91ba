-- ===== src/Jobs/Listing.antt =====
-- getJobs of src/modules/jobs/jobs.repository.ts: the filter, the sort and the page.
use zolt.Prelude.{
  ℕ, ◌+◌, ◌-◌, ◌*◌, ◌/◌, Bool, true, false, Option, none, some, List, leb, ◌==◌, if◌then◌else◌,
  length, take, drop, select, sort_by,
}
use zolt.Schema.{Db, Job, JobStatus}
use zolt.Monad.{M, pure, ◌>>=◌, read}

-- The keys that the schema of the query admits.
pub data SortBy : Type 0 where
  created_at updated_at run_at : SortBy

pub data SortOrder : Type 0 where
  asc desc : SortOrder

pub record GetJobsQuery : Type 0 where
  pub page : Option ℕ
  pub limit : Option ℕ
  pub status : Option JobStatus
  pub sort_by : Option SortBy
  pub order : Option SortOrder

-- x || d, where 0 and undefined are falsy
abbrev pub or_default : Option ℕ → ℕ → ℕ
or_default none d = d
or_default (some n) d = if n == 0 then d else n

abbrev pub same_status : JobStatus → JobStatus → Bool
same_status JobStatus.scheduled JobStatus.scheduled = true
same_status JobStatus.queued JobStatus.queued = true
same_status JobStatus.running JobStatus.running = true
same_status JobStatus.completed JobStatus.completed = true
same_status JobStatus.failed JobStatus.failed = true
same_status JobStatus.cancelled JobStatus.cancelled = true
same_status _ _ = false

-- WHERE status = $1, or no condition
abbrev pub matches_status : Option JobStatus → Job → Bool
matches_status none j = true
matches_status (some s) j = same_status j.status s

-- sortColumnMap[sortBy] || 'created_at': a key that is not in the map sorts by created_at.
unfoldable pub sort_column : Option SortBy → Job → ℕ
sort_column none j = j.created_at
sort_column (some SortBy.created_at) j = j.created_at
sort_column (some SortBy.updated_at) j = j.created_at
sort_column (some SortBy.run_at) j = j.run_at

unfoldable pub ordered : Option SortOrder → ℕ → ℕ → Bool
ordered none a b = leb b a
ordered (some desc) a b = leb b a
ordered (some asc) a b = leb a b

pub record Pagination : Type 0 where
  pub page : ℕ
  pub limit : ℕ
  pub total : ℕ
  pub total_pages : ℕ

pub record JobPage : Type 0 where
  pub jobs : List Job
  pub pagination : Pagination

abbrev pub page_of : GetJobsQuery → ℕ
page_of q = or_default q.page 1

abbrev pub limit_of : GetJobsQuery → ℕ
limit_of q = or_default q.limit 10

-- Math.ceil(total / limit)
abbrev pub ceil_div : ℕ → ℕ → ℕ
ceil_div total limit = (total + limit - 1) / limit

unfoldable pub matching : GetJobsQuery → Db → List Job
matching q db = select (matches_status q.status) db.jobs

unfoldable pub list_jobs : GetJobsQuery → Db → List Job
unfolding matching ordered sort_column
list_jobs q db =
    sort_by (λ a b. ordered q.order (sort_column q.sort_by a) (sort_column q.sort_by b))
      (matching q db)

unfoldable pub page_jobs : GetJobsQuery → Db → List Job
page_jobs q db = take (limit_of q) (drop ((page_of q - 1) * limit_of q) (list_jobs q db))

-- The page and the count are two statements.
unfoldable pub get_jobs : GetJobsQuery → M JobPage
get_jobs q = do
  jobs ← read (λ now db. page_jobs q db)
  total ← read (λ now db. length (matching q db))
  pure (record {
    jobs = jobs;
    pagination = record {
      page = page_of q;
      limit = limit_of q;
      total = total;
      total_pages = ceil_div total (limit_of q);
    };
  })
