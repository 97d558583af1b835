-- ===== src/JobStore/Defs.antt =====
-- The state of the job store and its operations.
mod Types
mod Rows
mod Delay
mod Lookup
mod Enqueue
mod Settle
mod Claiming
mod Admin
unfoldable pub use Types.*
unfoldable pub use Rows.*
unfoldable pub use Delay.*
unfoldable pub use Lookup.*
unfoldable pub use Enqueue.*
unfoldable pub use Settle.*
unfoldable pub use Claiming.*
unfoldable pub use Admin.*
