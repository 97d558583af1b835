-- ===== src/JobStore/Operations.antt =====
-- The operations of the store and the transitions of single rows.
mod Single
mod Batches
mod Settling
mod Claims
mod Inserts
pub use Single.*
pub use Batches.*
pub use Settling.*
pub use Claims.*
pub use Inserts.*
