-- ===== src/Jobs.antt =====
-- src/modules/jobs: the repository (jobs.repository.ts), the listing and the services.
pub mod Pages
pub mod Repository
pub mod Service
pub mod Listing
pub mod Deduplication
pub mod Rows
pub mod Submission
