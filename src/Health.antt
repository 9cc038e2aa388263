-- ===== src/Health.antt =====
-- src/health_evaluator.rs: the health of applications and when a policy fires.
pub mod Evaluator
pub mod Counter
pub mod Restarts
