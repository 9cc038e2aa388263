-- ===== src/Upgrade.antt =====
-- src/upgrade_engine.rs: upgrades of applications.
pub mod Package
pub mod Engine
pub mod Verified
pub mod Outcomes
pub mod Records
