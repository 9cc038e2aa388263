-- ===== src/AppPlatform.antt =====
-- src/app_platform.rs: the gRPC service of the payload applications. `State` is what it keeps,
-- `Session` the tokens and roles, `Rpc` the path of every call, `Handlers` and `Calls` the calls.
pub mod State
pub mod Session
pub mod Rpc
pub mod Handlers
pub mod Calls
pub mod Center
pub mod Guard
pub mod Tokens
pub mod Lifetime
pub mod Revoked
pub mod Roles
