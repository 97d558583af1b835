-- ===== src/RecordQuery.antt =====
-- internal/recordquery/query.go: the query contract of Record lists.
mod Defs
unfoldable pub use Defs.*
pub mod Bounds
pub mod Sorting
pub mod Unique
pub mod Updates
pub mod AnyOrder
mod Samples
