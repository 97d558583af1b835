-- ===== src/PatchPlan/Defs.antt =====
-- The metadata, the reader of an operation, the live schema and the planner.
mod Metadata
mod Reader
mod SqlGuard
mod Schema
mod Statements
mod SqlText
mod Planner
unfoldable pub use Metadata.*
unfoldable pub use Reader.*
unfoldable pub use SqlGuard.*
unfoldable pub use Schema.*
unfoldable pub use Statements.*
unfoldable pub use SqlText.*
unfoldable pub use Planner.*
