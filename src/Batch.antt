-- ===== src/Batch.antt =====
-- src/batch.rs: target selectors, execution policies, the order of execution and the status of
-- batch tasks.
pub mod Types
pub mod Target
pub mod Order
pub mod Split
pub mod Status
