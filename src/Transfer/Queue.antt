-- ===== src/Transfer/Queue.antt =====
-- porthmos-core/src/transfer/queue/mod.rs: the transfer queue.
pub mod State
pub mod Account
pub mod Operations
pub mod Remove
pub mod Start
pub mod Effects
pub mod Index
pub mod IndexOperations
pub mod StatusChanges
pub mod Orders
pub mod RowKeys
pub mod Removal
pub mod Rekey
pub mod RowMoves
pub mod RowRemoval
pub mod Reach
pub mod Refine
pub mod StartLoop
pub mod StartBounds
pub mod StartSessions
pub mod StartProgress
mod Runs
mod Examples
