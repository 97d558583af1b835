-- ===== src/JobStore.antt =====
-- internal/jobs/store: durable Job Executions in PostgreSQL.
mod Defs
pub mod Backoff
pub mod Lifecycle
pub mod Operations
pub mod Schedule
pub mod Invariants
pub mod Fencing
pub mod Recovery
pub mod Progress
pub mod Supply
pub mod Available
pub mod Idempotency
pub mod Keys
pub mod Leases
pub mod Handout
mod SampleData
mod Samples
unfoldable pub use Defs.*
