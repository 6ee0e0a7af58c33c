-- ===== src/Transfer.antt =====
-- porthmos-core/src/transfer: the jobs, the queue and its rows, conflicts and plans.
pub mod Job
pub mod Rows
pub mod Plan
pub mod Conflicts
pub mod Queue
pub mod Snapshot
mod Examples
