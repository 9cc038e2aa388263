-- ===== src/Config.antt =====
-- src/config_manager.rs: versioned configuration in scopes, and the table of versions behind it.
pub mod Table
pub mod Manager
pub mod Versions
pub mod Reads
pub mod History
pub mod Snapshot
