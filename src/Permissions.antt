-- ===== src/Permissions.antt =====
-- internal/permissions: who may do what.
mod Request
mod Tables
mod Checker
unfoldable pub use Request.*
unfoldable pub use Tables.*
unfoldable pub use Checker.*
pub mod Grants
pub mod Normal
mod Samples
