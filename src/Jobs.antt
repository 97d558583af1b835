-- ===== src/Jobs.antt =====
-- internal/jobs/jobs.go: the metadata of jobs.
mod Defs
unfoldable pub use Defs.*
pub mod Runnable
pub mod Catalogs
mod Samples
