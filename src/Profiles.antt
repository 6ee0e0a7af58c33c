-- ===== src/Profiles.antt =====
-- porthmos-core/src/profiles: the saved connections.
pub mod Labels
mod Examples
pub mod Form
pub mod Entry
pub mod Draft
