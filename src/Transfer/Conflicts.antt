-- ===== src/Transfer/Conflicts.antt =====
-- porthmos-core/src/transfer/conflicts/mod.rs: what to do with a file whose place is taken.
pub mod UniqueName
pub mod Resolve
pub mod Marks
pub mod Safety
