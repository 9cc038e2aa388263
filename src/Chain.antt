-- ===== src/Chain.antt =====
-- crates/agent-core/src/chain.rs: the chain of responsibility in front of every RPC.
pub mod Mapper
pub mod Identity
pub mod Interceptor
