-- ===== src/Ssh.antt =====
-- porthmos-ssh/src: what the ssh protocols share.
pub mod Quote
pub mod Config
mod Examples
