-- ===== src/Tests/CommandPolicy.antt =====
-- crates/agent-core/src/command_policy.rs at the inputs of its unit tests.
use cc_r_device_agent.Prelude.{
  ℕ, String, ◌≡◌, refl, ◌↔◌, Option, none, some, List, [], ◌∷◌, ok, err, Result, string_eq,
  any_char, all_char,
}
use cc_r_device_agent.Prelude.Dict
use cc_r_device_agent.Security.Types.{Role, operator, readonly, Principal}
use cc_r_device_agent.CommandPolicy.{
  CommandPolicyError, unknown_command, role_not_allowed, missing_parameter, invalid_parameter_value,
  CommandTemplate, ValidatedCommand, default_policy, is_blank, contains_shell_metacharacter,
  validate, check_parameters, check_parameter, check_text, is_whitespace, is_shell_metacharacter,
  restart_process,
}
use cc_r_device_agent.CommandPolicy.Validate.{IsAdmissible, validate-ok_iff}

-- A few JSON values.
data Json : Type 0 where
  str : String → Json
  num : ℕ → Json
  obj : List (String × String) → Json

abbrev field : Json → String → Option Json
field (obj fs) k = elim (Dict.get k fs) [ none ↦ none | some s ↦ some (str s) ]
field (str s) k = none
field (num n) k = none

abbrev as_str : Json → Option String
as_str (str s) = some s
as_str (num n) = none
as_str (obj fs) = none

abbrev person : Role → Principal
person r = record { tenant_id = "tenant-a"; device_id = "device-1"; subject = "user"; role = r }

abbrev given : String → Json
given name = obj (("process_name", name) ∷ [])

abbrev run : Role → String → Json → Result CommandPolicyError ValidatedCommand
run r command params = validate field as_str default_policy (person r) command params

unknown_refused : run operator "unknown" (obj []) ≡ err unknown_command
unfolding validate default_policy Dict.get
unknown_refused = refl

readonly_refused : run readonly "restart_process" (given "nginx") ≡ err role_not_allowed
unfolding validate default_policy Dict.get
readonly_refused = refl

missing_refused : run operator "restart_process" (obj []) ≡ err (missing_parameter "process_name")
unfolding validate default_policy Dict.get check_parameters check_parameter
missing_refused = refl

shell_refused :
    run operator "restart_process" (given "nginx; rm -rf /")
    ≡ err (invalid_parameter_value "process_name")
unfolding validate default_policy Dict.get check_parameters check_parameter check_text is_blank
    is_whitespace contains_shell_metacharacter is_shell_metacharacter any_char all_char
shell_refused = refl

abbrev restart_nginx : ValidatedCommand
restart_nginx = record {
  command_id = "restart_process";
  args = ("process_name", "nginx") ∷ [];
  timeout_ms = 30_000;
  resource_limits = restart_process.resource_limits;
  sandbox_profile = some "process-control";
}

nginx_accepted : run operator "restart_process" (given "nginx") ≡ ok restart_nginx
unfolding validate default_policy Dict.get Dict.insert check_parameters check_parameter check_text
    is_blank is_whitespace contains_shell_metacharacter is_shell_metacharacter any_char all_char
nginx_accepted = refl

validate-ok_iff_example :
    ((c : ValidatedCommand) × (run operator "restart_process" (given "nginx") ≡ ok c)) ↔ (
      (t : CommandTemplate) × IsAdmissible field as_str default_policy
        (person operator)
        "restart_process"
        (given "nginx")
        t)
validate-ok_iff_example =
    validate-ok_iff field as_str default_policy (person operator) "restart_process" (given "nginx")
