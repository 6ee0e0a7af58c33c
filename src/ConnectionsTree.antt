-- ===== src/ConnectionsTree.antt =====
-- porthmos-core/src/connections_tree/mod.rs: the saved connections as a tree of groups.
pub mod Tree
pub mod Counts
mod Examples
