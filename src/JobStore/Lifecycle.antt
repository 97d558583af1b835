-- ===== src/JobStore/Lifecycle.antt =====
-- What the operations of the store do to the table "job_execution", in terms of single rows.
mod Steps
mod Updates
pub use Steps.*
pub use Updates.*
