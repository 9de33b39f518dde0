-- ===== src/Journal.antt =====
-- The operation journal (src/plaik_core/operation_journal.py).
pub mod Event
pub mod File
pub mod Operations
pub mod Chain
pub mod Sanity
pub mod Durability
mod Examples
pub mod Recording
pub mod Calls
