-- ===== src/AppOrder.antt =====
-- internal/app/registry/order.go: the order in which Apps are set up.
mod Defs
unfoldable pub use Defs.*
mod Sets
mod Edges
mod Rounds
mod Loop
pub mod Correct
pub mod Total
mod Samples
