-- ===== src/CommandPolicy.antt =====
-- crates/agent-core/src/command_policy.rs: the whitelist of commands and the check of parameters.
-- The JSON values of the crate `serde_json` are a parameter: a type, `Value::get` and
-- `Value::as_str`.
pub mod Params
pub mod Validate
use Prim.Native.String.{len}
use cc_r_device_agent.Prelude.{
  ℕ, String, Bool, true, false, not, ◌&&◌, ◌||◌, Option, none, some, List, [], ◌∷◌, any, leb, ltb,
  ◌==◌, if◌then◌else◌, Result, ok, err, ◌>>=◌, any_char, all_char,
}
use cc_r_device_agent.Prelude.Dict
use cc_r_device_agent.Prelude.Dict.{Dict}
use cc_r_device_agent.Prelude.{string_eq}
use cc_r_device_agent.Security.Types.{Role, admin, operator, Principal, role_beq}

pub data CommandPolicyError : Type 0 where
  unknown_command role_not_allowed : CommandPolicyError
  missing_parameter invalid_parameter_type invalid_parameter_value : String → CommandPolicyError

pub record CommandResourceLimits : Type 0 where
  pub memory_bytes : Option ℕ
  pub cpu_millis : Option ℕ
  pub open_files : Option ℕ

-- `ParameterKind` has the one variant `String`, whose fields stand here.
pub record ParameterSpec : Type 0 where
  pub name : String
  pub max_len : ℕ
  pub allow_shell_metacharacters : Bool
  pub required : Bool

pub record CommandTemplate : Type 0 where
  pub command_id : String
  pub allowed_roles : List Role
  pub parameters : List ParameterSpec
  pub timeout_ms : ℕ
  pub resource_limits : Option CommandResourceLimits
  pub sandbox_profile : Option String

pub record ValidatedCommand : Type 0 where
  pub command_id : String
  pub args : Dict String String
  pub timeout_ms : ℕ
  pub resource_limits : Option CommandResourceLimits
  pub sandbox_profile : Option String

unfoldable pub argument : ValidatedCommand → String → Option String
argument c name = Dict.get name c.args

pub record CommandPolicy : Type 0 where
  pub commands : Dict String CommandTemplate

abbrev pub restart_process : CommandTemplate
restart_process = record {
  command_id = "restart_process";
  allowed_roles = admin ∷ operator ∷ [];
  parameters =
      record {
        name = "process_name";
        max_len = 128;
        allow_shell_metacharacters = false;
        required = true;
      }
      ∷ [];
  timeout_ms = 30_000;
  resource_limits =
      some (record { memory_bytes = none; cpu_millis = some 10_000; open_files = some 64 });
  sandbox_profile = some "process-control";
}

unfoldable pub default_policy : CommandPolicy
default_policy = record { commands = ("restart_process", restart_process) ∷ [] }

insert_all : List CommandTemplate → Dict String CommandTemplate → Dict String CommandTemplate
insert_all [] m = m
insert_all (t ∷ ts) m = insert_all ts (Dict.insert t.command_id t m)

unfoldable pub from_templates : List CommandTemplate → CommandPolicy
unfolding insert_all
from_templates templates = record { commands = insert_all templates [] }

unfoldable pub is_shell_metacharacter : ℕ → Bool
is_shell_metacharacter c =
    c == b';'
    || c == b'&'
    || c == b'|'
    || c == b'`'
    || c == b'$'
    || c == b'<'
    || c == b'>'
    || c == 10
    || c == 13

unfoldable pub contains_shell_metacharacter : String → Bool
contains_shell_metacharacter value = any_char is_shell_metacharacter value

-- `char::is_whitespace`: the code points with the property White_Space.
unfoldable pub is_whitespace : ℕ → Bool
is_whitespace c =
    leb 9 c && leb c 13
    || c == 32
    || c == 0x85
    || c == 0xa0
    || c == 0x1680
    || leb 0x2000 c && leb c 0x200a
    || c == 0x2028
    || c == 0x2029
    || c == 0x202f
    || c == 0x205f
    || c == 0x3000

-- `value.trim().is_empty()`.
unfoldable pub is_blank : String → Bool
is_blank value = all_char is_whitespace value

-- The checks on a parameter's text.
unfoldable pub check_text : ParameterSpec → String → Result CommandPolicyError String
check_text p value =
    if is_blank value
    then err (missing_parameter p.name)
    else if ltb p.max_len (len value)
        || not p.allow_shell_metacharacters && contains_shell_metacharacter value
    then err (invalid_parameter_value p.name)
    else ok value

module _ {Value : Type 0} (get : Value → String → Option Value)
    (as_str : Value → Option String) where
  -- The body of the loop over the parameters: the arguments so far, with this one's.
  unfoldable pub check_parameter :
      ParameterSpec → Value → Dict String String → Result CommandPolicyError (Dict String String)
  check_parameter p params args = elim (get params p.name) [
    | none ↦ if p.required then err (missing_parameter p.name) else ok args
    | some value ↦ elim (as_str value) [
      | none ↦ err (invalid_parameter_type p.name)
      | some text ↦ check_text p text >>= λ v. ok (Dict.insert p.name v args)
    ]
  ]

  unfoldable pub check_parameters :
      List ParameterSpec
      → Value
      → Dict String String
      → Result CommandPolicyError (Dict String String)
  check_parameters [] params args = ok args
  check_parameters (p ∷ ps) params args =
      check_parameter p params args >>= λ args'. check_parameters ps params args'

  -- What `validate` does with the template that it found.
  unfoldable pub apply_template :
      CommandTemplate → Principal → Value → Result CommandPolicyError ValidatedCommand
  apply_template t principal params =
      if not (any (λ r. role_beq r principal.role) t.allowed_roles)
      then err role_not_allowed
      else check_parameters t.parameters params [] >>= λ args. ok (record {
        command_id = t.command_id;
        args = args;
        timeout_ms = t.timeout_ms;
        resource_limits = t.resource_limits;
        sandbox_profile = t.sandbox_profile;
      })

  unfoldable pub validate :
      CommandPolicy → Principal → String → Value → Result CommandPolicyError ValidatedCommand
  unfolding apply_template
  validate policy principal command_id params = elim (Dict.get command_id policy.commands) [
    | none ↦ err unknown_command
    | some t ↦ apply_template t principal params
  ]
