-- ===== src/Jobs.antt =====
-- The durable job queue (src/plaik_core/jobs.py).
pub mod Record
pub mod Registry
pub mod Changes
pub mod Queue
pub mod Validity
pub mod Consistency
pub mod Selection
pub mod Outcomes
pub mod Returned
pub mod Invariant
pub mod Writes
pub mod Preservation
pub mod Claiming
pub mod Leases
mod Examples
pub mod Retention
pub mod Fencing
pub mod Idempotency
