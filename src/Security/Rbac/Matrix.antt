-- ===== src/Security/Rbac/Matrix.antt =====
-- The default policy as a table, and how the three roles compare.
use cc_r_device_agent.Prelude.{◌≡◌, refl, ◌⊎◌, ◌↔◌, arith}
use cc_r_device_agent.Security.Types.{
  Role, admin, operator, readonly, Resource, telemetry, control_command, file_transfer,
  configuration, upgrade, app_control, security_policy, Action, read, execute, write, manage, allow,
  Principal,
}
use cc_r_device_agent.Security.Rbac.{default_policy, authorize}

-- What each role may do, written as rules and not as sets of pairs.
pub data May : Role → Resource → Action → Type 0 where
  look : {r : Role} → May r telemetry read
  fetch : {r : Role} → May r file_transfer read
  inspect : {r : Role} → May r configuration read
  command_op : May operator control_command execute
  command_admin : May admin control_command execute
  upload_op : May operator file_transfer write
  upload_admin : May admin file_transfer write
  report_op : May operator telemetry write
  report_admin : May admin telemetry write
  upgrade_op : May operator upgrade execute
  upgrade_admin : May admin upgrade execute
  apps_op : May operator app_control execute
  apps_admin : May admin app_control execute
  configure : May admin configuration write
  govern : May admin security_policy manage

ruleset may_rules = (
  look, fetch, inspect, command_op, command_admin, upload_op, upload_admin, report_op, report_admin,
  upgrade_op, upgrade_admin, apps_op, apps_admin, configure, govern,
)

allow-May :
    (p : Principal) (r : Resource) (a : Action)
    → authorize default_policy p r a ≡ allow
    → May p.role r a
unfolding authorize default_policy
allow-May p r a h = grind (arith, may_rules)

May-allow :
    (p : Principal) (q : Role) (r : Resource) (a : Action)
    → p.role ≡ q
    → May q r a
    → authorize default_policy p r a ≡ allow
unfolding authorize default_policy
May-allow p q r a e look = ground arith
May-allow p q r a e _ = ground arith

-- The default policy allows a principal exactly the actions on resources that the rules of `May`
-- give its role, and denies every other.
pub authorize-allow_iff :
    (p : Principal) (r : Resource) (a : Action)
    → (authorize default_policy p r a ≡ allow) ↔ May p.role r a
authorize-allow_iff p r a = (allow-May p r a, May-allow p p.role r a refl)

-- What the default policy allows a principal, it allows with the role replaced by `admin`; unless
-- the role was `admin`, it allows it with the role `operator` too; and if the role was `readonly`,
-- the action is `read`.
pub authorize_mono :
    (p : Principal) (r : Resource) (a : Action)
    → authorize default_policy p r a ≡ allow
    → (authorize default_policy (record p { role = admin }) r a ≡ allow)
      × ((p.role ≡ admin) ⊎ (authorize default_policy (record p { role = operator }) r a ≡ allow))
      × (p.role ≡ readonly → a ≡ read)
unfolding authorize default_policy
authorize_mono p r a h = (ground arith, ground arith, ground arith)
