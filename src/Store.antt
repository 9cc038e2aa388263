-- ===== src/Store.antt =====
-- crates/agent-store/src/lib.rs: the tables of the agent's SQLite database as its SQL reads and
-- writes them, on a database whose statements fail only by their constraints.
pub mod AuditLog
pub mod Nonces
pub mod Sessions
pub mod Policies
