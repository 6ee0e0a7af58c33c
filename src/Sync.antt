-- ===== src/Sync.antt =====
-- porthmos-core/src/sync/mod.rs: comparing two trees and proposing what to copy.
pub mod Paths
pub mod Compare
pub mod Actions
pub mod Mirror
mod Examples
