-- ===== src/PatchPlan.antt =====
-- internal/db/patch_plan.go: patches that change the schema of the database, planned on a copy of it.
mod Defs
unfoldable pub use Defs.*
pub mod Effects
mod Simulation
pub mod Refines
pub mod Literals
pub mod Quoting
mod Samples
