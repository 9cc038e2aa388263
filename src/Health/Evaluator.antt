-- ===== src/Health/Evaluator.antt =====
-- src/health_evaluator.rs: reports, policies and the actions that they fire. The clock is an
-- argument; the table is under one lock, so reports come one after another.
use cc_r_device_agent.Prelude.{
  ℕ, ◌+◌, ◌-◌, ◌*◌, ◌%◌, ◌^◌, String, Bool, true, false, Option, none, some, ltb, leb, ◌==◌,
  if◌then◌else◌, or_else, string_eq,
}
use mathlib.Core.Option
use cc_r_device_agent.Prelude.Dict
use cc_r_device_agent.Prelude.Dict.{Dict}

pub data HealthStatus : Type 0 where
  healthy degraded unhealthy unknown : HealthStatus

-- `From<i32>`, from the numbers that are not negative; all others give `unknown`.
unfoldable pub from_i32 : ℕ → HealthStatus
from_i32 v =
    if v == 1 then healthy else if v == 2 then degraded else if v == 3 then unhealthy else unknown

pub data PolicyAction : Type 0 where
  restart alert restart_then_alert : PolicyAction

-- A `Duration` and an `Instant` are numbers of nanoseconds.
pub record HealthPolicy : Type 0 where
  pub unhealthy_threshold : ℕ
  pub action : PolicyAction
  pub min_restart_interval : ℕ

abbrev pub default_policy : HealthPolicy
default_policy = record {
  unhealthy_threshold = 3;
  action = restart_then_alert;
  min_restart_interval = 30 * 10 ^ 9;
}

pub record AppHealth : Type 0 where
  pub consecutive_failures : ℕ
  pub last_status : HealthStatus
  pub last_restart : Option ℕ
  pub policy : HealthPolicy

pub record HealthAction : Type 0 where
  pub app_id : String
  pub action : PolicyAction
  pub consecutive_failures : ℕ

abbrev pub Apps : Type 0
Apps = Dict String AppHealth

abbrev pub fresh : HealthPolicy → AppHealth
fresh policy = record {
  consecutive_failures = 0;
  last_status = unknown;
  last_restart = none;
  policy = policy;
}

unfoldable pub set_policy : String → HealthPolicy → Apps → Apps
set_policy app_id policy apps = elim (Dict.get app_id apps) [
  | some h ↦ Dict.insert app_id (record h { policy = policy }) apps
  | none ↦ Dict.insert app_id (fresh policy) apps
]

abbrev pub is_unhealthy : HealthStatus → Bool
is_unhealthy unhealthy = true
is_unhealthy _ = false

abbrev pub restarts : PolicyAction → Bool
restarts restart = true
restarts alert = false
restarts restart_then_alert = true

-- `last_status` and the counter, a u32 whose increment wraps around.
abbrev pub counted : HealthStatus → AppHealth → AppHealth
counted status h = record h {
  last_status = status;
  consecutive_failures = if is_unhealthy status then (h.consecutive_failures + 1) % 2 ^ 32 else 0;
}

-- `duration_since` is 0 for an earlier instant.
abbrev pub too_soon : ℕ → AppHealth → Bool
too_soon now h =
    or_else (Option.map (λ t. ltb (now - t) h.policy.min_restart_interval) h.last_restart) false

-- The threshold, the rate limit and the action.
unfoldable pub evaluate : String → ℕ → AppHealth → AppHealth × Option HealthAction
evaluate app_id now h =
    if leb h.policy.unhealthy_threshold h.consecutive_failures
    then if too_soon now h then (h, none) else (
      if restarts h.policy.action then record h { last_restart = some now } else h,
      some (record {
        app_id = app_id;
        action = h.policy.action;
        consecutive_failures = h.consecutive_failures;
      }),
    )
    else (h, none)

-- The entry of an application, or the one that `report` enters for it.
abbrev pub entry_of : String → Apps → AppHealth
entry_of app_id apps = or_else (Dict.get app_id apps) (fresh default_policy)

unfoldable pub report : String → HealthStatus → ℕ → Apps → Apps × Option HealthAction
report app_id status now apps =
    let (h, action) = evaluate app_id now (counted status (entry_of app_id apps)) in
    (Dict.insert app_id h apps, action)

unfoldable pub consecutive_failures : String → Apps → ℕ
consecutive_failures app_id apps =
    or_else (Option.map (λ h. h.consecutive_failures) (Dict.get app_id apps)) 0

unfoldable pub last_status : String → Apps → HealthStatus
last_status app_id apps = or_else (Option.map (λ h. h.last_status) (Dict.get app_id apps)) unknown
