-- ===== src/Tests.antt =====
-- Runs of the model at concrete inputs, and the theorems applied to them.
mod Security
mod CommandPolicy
mod Chain
mod Lifecycle
mod Batch
mod Health
mod Config
mod Upgrade
mod AppPlatform
mod Alerts
mod Router
mod Encoding
mod Store
mod Tags
mod Groups
