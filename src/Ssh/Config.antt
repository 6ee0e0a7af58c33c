-- ===== src/Ssh/Config.antt =====
-- porthmos-ssh/src/ssh_config/mod.rs: the hosts that a user's `~/.ssh/config` names.
pub mod Values
pub mod Blocks
pub mod Resolve
pub mod Settings
pub mod Step
pub mod FirstWins
pub mod AliasNames
pub mod Aliases
pub mod Tokens
pub mod Examples
