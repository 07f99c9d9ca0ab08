-- ===== src/Settings.antt =====
-- core/config.py: the settings, and the address of the database.
pub mod Database
pub mod Fields
pub mod Examples
mod Twice
mod Tests
