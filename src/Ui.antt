-- ===== src/Ui.antt =====
-- porthmos-tui: the state behind the screen.
pub mod Sessions
pub mod SessionLaws
pub mod Notifications
pub mod TextInput
pub mod TextInputLaws
mod Examples
