-- ===== src/Lifecycle.antt =====
-- src/app_lifecycle.rs: the applications under management, their states and their processes.
pub mod Platform
pub mod Paths
pub mod Apps
pub mod Operations
pub mod Task
pub mod Invariant
pub mod Starting
pub mod Stopping
pub mod Safety
pub mod Leaks
pub mod Frame
pub mod Effects
