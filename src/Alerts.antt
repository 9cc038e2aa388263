-- ===== src/Alerts.antt =====
-- src/alert_engine.rs: rules over telemetry and the alerts that they fire. `Rules` has the data,
-- `Conditions` the evaluation of a rule, `Engine` the state and its operations.
pub mod Rules
pub mod Conditions
pub mod Engine
pub mod Matching
pub mod Times
pub mod Pacing
pub mod History
