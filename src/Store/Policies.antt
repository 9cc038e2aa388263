-- ===== src/Store/Policies.antt =====
-- crates/agent-store/src/lib.rs, the table rbac_policies. The order of its rows is that of SQLite's
-- BINARY collation, a parameter.
use cc_r_device_agent.Prelude.{
  String, ◌≡◌, refl, Bool, ◌&&◌, List, [], ◌∷◌, str_eq, if◌then◌else◌, Result, ok, err, ◌>>=◌, ◌+s◌,
}
use cc_r_device_agent.Prelude.Sort.{sort_by}
use cc_r_device_agent.Security.Types.{
  Resource, telemetry, control_command, file_transfer, configuration, upgrade, app_control,
  security_policy, Action, read, execute, write, manage,
}
use cc_r_device_agent.Security.Audit.{debug_action, debug_resource}

pub record RbacPolicyRecord : Type 0 where
  pub role : String
  pub resource : Resource
  pub action : Action
  pub allowed : Bool

pub record PolicyRow : Type 0 where
  pub role : String
  pub resource : String
  pub action : String
  pub allowed : Bool

abbrev same_row : PolicyRow → PolicyRow → Bool
same_row a b = str_eq a.role b.role && str_eq a.resource b.resource && str_eq a.action b.action

unfoldable pub policy_row : RbacPolicyRecord → PolicyRow
policy_row r = record {
  role = r.role;
  resource = debug_resource r.resource;
  action = debug_action r.action;
  allowed = r.allowed;
}

unfoldable pub upsert_row : PolicyRow → List PolicyRow → List PolicyRow
upsert_row r [] = r ∷ []
upsert_row r (q ∷ rows) = if same_row q r then r ∷ rows else q ∷ upsert_row r rows

unfoldable pub upsert_rbac_policy : RbacPolicyRecord → List PolicyRow → List PolicyRow
unfolding policy_row upsert_row
upsert_rbac_policy r rows = upsert_row (policy_row r) rows

unfoldable pub parse_action : String → Result String Action
parse_action value =
    if str_eq value "Read"
    then ok read
    else if str_eq value "Execute"
    then ok execute
    else if str_eq value "Write"
    then ok write
    else if str_eq value "Manage"
    then ok manage
    else err ("unknown action " +s value)

unfoldable pub parse_resource : String → Result String Resource
parse_resource value =
    if str_eq value "Telemetry"
    then ok telemetry
    else if str_eq value "ControlCommand"
    then ok control_command
    else if str_eq value "FileTransfer"
    then ok file_transfer
    else if str_eq value "Configuration"
    then ok configuration
    else if str_eq value "Upgrade"
    then ok upgrade
    else if str_eq value "AppControl"
    then ok app_control
    else if str_eq value "SecurityPolicy"
    then ok security_policy
    else err ("unknown resource " +s value)

unfoldable pub row_to_policy : PolicyRow → Result String RbacPolicyRecord
unfolding parse_action parse_resource
row_to_policy r = parse_resource r.resource >>= λ resource. parse_action r.action >>= λ action.
    ok record { role = r.role; resource = resource; action = action; allowed = r.allowed }

unfoldable pub read_policies : List PolicyRow → Result String (List RbacPolicyRecord)
unfolding row_to_policy
read_policies [] = ok []
read_policies (r ∷ rows) =
    let rest = read_policies rows in
    row_to_policy r >>= λ policy. rest >>= λ policies. ok (policy ∷ policies)

unfoldable pub load_rbac_policies :
    (String → String → Bool) → List PolicyRow → Result String (List RbacPolicyRecord)
unfolding read_policies
load_rbac_policies text_le rows =
    let before = λ (a b : PolicyRow).
      if str_eq a.role b.role
      then if str_eq a.resource b.resource
        then text_le a.action b.action
        else text_le a.resource b.resource
      else text_le a.role b.role in
    read_policies (sort_by before rows)

pub parse_action-debug_action : (a : Action) → parse_action (debug_action a) ≡ ok a
unfolding parse_action debug_action
parse_action-debug_action read = refl
parse_action-debug_action execute = refl
parse_action-debug_action write = refl
parse_action-debug_action manage = refl

pub parse_resource-debug_resource : (r : Resource) → parse_resource (debug_resource r) ≡ ok r
unfolding parse_resource debug_resource
parse_resource-debug_resource telemetry = refl
parse_resource-debug_resource control_command = refl
parse_resource-debug_resource file_transfer = refl
parse_resource-debug_resource configuration = refl
parse_resource-debug_resource upgrade = refl
parse_resource-debug_resource app_control = refl
parse_resource-debug_resource security_policy = refl

-- A policy is read back as it was written.
row_to_policy-policy_row : (r : RbacPolicyRecord) → row_to_policy (policy_row r) ≡ ok r
unfolding row_to_policy policy_row
row_to_policy-policy_row r = rw parse_resource-debug_resource (rw parse_action-debug_action refl)
