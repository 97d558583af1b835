-- ===== src/Trees.antt =====
-- internal/db/tree_integrity.go: Entities whose records form a tree by a link to a parent.
mod Defs
unfoldable pub use Defs.*
mod Closure
pub mod Forest
pub mod Moves
pub mod Keep
pub mod Histories
pub mod Subtree
mod Samples
