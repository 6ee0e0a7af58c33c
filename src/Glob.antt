-- ===== src/Glob.antt =====
-- porthmos-vfs/src/search/mod.rs, `glob_match`: names against patterns with `*` and `?`.
pub mod Matcher
pub mod Pattern
pub mod Fuel
pub mod Correct
mod Examples
