-- ===== src/Security.antt =====
-- crates/agent-core/src/security.rs: access control, the replay guard, the audit chain.
pub mod Types
pub mod Rbac
pub mod Replay
pub mod Center
pub mod Audit
