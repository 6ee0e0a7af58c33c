-- ===== src/Persist.antt =====
-- porthmos-core/src/persist: files that are written in the background.
pub mod Writer
pub mod Latest
mod Examples
