-- ===== src/Naming.antt =====
-- internal/naming/strategy.go and internal/db/naming.go: the names of Records.
mod Defs
unfoldable pub use Defs.*
mod Numbers
pub mod Counters
pub mod Distinct
pub mod Formats
mod Samples
