-- ===== src/History.antt =====
-- porthmos-core/src/history/mod.rs: the transfers that are over.
pub mod Log
pub mod Trim
mod Examples
