-- ===== src/Security/Rbac.antt =====
-- crates/agent-core/src/security.rs, `RbacPolicy`: roles, their grants and `authorize`.
pub mod Matrix
use cc_r_device_agent.Prelude.{Bool, ◌&&◌, Option, none, some, List, [], ◌∷◌, any, if◌then◌else◌}
use cc_r_device_agent.Prelude.Dict.{Dict, get, insert}
use cc_r_device_agent.Security.Types.{
  Role, admin, operator, readonly, Resource, telemetry, control_command, file_transfer,
  configuration, upgrade, app_control, security_policy, Action, read, execute, write, manage,
  Decision, allow, deny, Principal, resource_beq, action_beq, role_eq,
}

pub record RbacPolicy : Type 0 where
  pub grants : Dict Role (List (Resource × Action))

abbrev admin_grants : List (Resource × Action)
admin_grants =
    (telemetry, read)
    ∷ (control_command, execute)
    ∷ (file_transfer, read)
    ∷ (file_transfer, write)
    ∷ (configuration, read)
    ∷ (configuration, write)
    ∷ (telemetry, write)
    ∷ (upgrade, execute)
    ∷ (app_control, execute)
    ∷ (security_policy, manage)
    ∷ []

abbrev operator_grants : List (Resource × Action)
operator_grants =
    (telemetry, read)
    ∷ (control_command, execute)
    ∷ (file_transfer, read)
    ∷ (file_transfer, write)
    ∷ (configuration, read)
    ∷ (telemetry, write)
    ∷ (upgrade, execute)
    ∷ (app_control, execute)
    ∷ []

abbrev readonly_grants : List (Resource × Action)
readonly_grants = (telemetry, read) ∷ (file_transfer, read) ∷ (configuration, read) ∷ []

unfoldable pub default_policy : RbacPolicy
unfolding insert
default_policy = record {
  grants =
      insert readonly readonly_grants
        (insert operator operator_grants (insert admin admin_grants []));
}

-- `HashSet::contains` on pairs.
abbrev granted : Resource → Action → List (Resource × Action) → Bool
granted r a gs = any (λ g. resource_beq g.0 r && action_beq g.1 a) gs

unfoldable pub authorize : RbacPolicy → Principal → Resource → Action → Decision
unfolding get
authorize policy principal resource action = elim (get principal.role policy.grants) [
  | some gs ↦ if granted resource action gs then allow else deny
  | none ↦ deny
]
