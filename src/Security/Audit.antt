-- ===== src/Security/Audit.antt =====
-- crates/agent-core/src/security.rs: audit events and their hash chain. SHA-256, of the crate
-- `ring`, is a parameter: from a text, whose UTF-8 is hashed, to the bytes of its digest.
pub mod Chain
pub mod Tampering
use cc_r_device_agent.Prelude.{
  ℕ, ◌/◌, ◌%◌, String, Bool, true, false, ◌&&◌, List, [], ◌∷◌, ◌++◌, none, some, str_eq, ◌+s◌, join,
  show_ℕ, last?, get_elem?, or_else, if◌then◌else◌,
}
use cc_r_device_agent.Security.Types.{
  Action, read, execute, write, manage, Resource, telemetry, control_command, file_transfer,
  configuration, upgrade, app_control, security_policy, Principal,
}

pub record AuditEvent : Type 0 where
  pub event_id : String
  pub timestamp : ℕ
  pub tenant_id : String
  pub device_id : String
  pub principal : String
  pub action : Action
  pub resource : Resource
  pub target : String
  pub params_digest : String
  pub result : String
  pub trace_id : String
  pub prev_hash : String
  pub hash : String

unfoldable pub new_event :
    String → ℕ → Principal → Action → Resource → String → String → String → AuditEvent
new_event event_id timestamp p action resource target result trace_id = record {
  event_id = event_id;
  timestamp = timestamp;
  tenant_id = p.tenant_id;
  device_id = p.device_id;
  principal = p.subject;
  action = action;
  resource = resource;
  target = target;
  params_digest = "";
  result = result;
  trace_id = trace_id;
  prev_hash = "";
  hash = "";
}

-- `{:?}` of the two enums.
unfoldable pub debug_action : Action → String
debug_action read = "Read"
debug_action execute = "Execute"
debug_action write = "Write"
debug_action manage = "Manage"

unfoldable pub debug_resource : Resource → String
debug_resource telemetry = "Telemetry"
debug_resource control_command = "ControlCommand"
debug_resource file_transfer = "FileTransfer"
debug_resource configuration = "Configuration"
debug_resource upgrade = "Upgrade"
debug_resource app_control = "AppControl"
debug_resource security_policy = "SecurityPolicy"

abbrev hex_digits : List String
hex_digits =
    "0" ∷ "1" ∷ "2" ∷ "3" ∷ "4" ∷ "5" ∷ "6" ∷ "7" ∷ "8" ∷ "9" ∷ "a" ∷ "b" ∷ "c" ∷ "d" ∷ "e" ∷ "f"
    ∷ []

unfoldable pub hex_encode : List ℕ → String
hex_encode [] = ""
hex_encode (byte ∷ bytes) =
    or_else (get_elem? hex_digits (byte / 16)) ""
    +s or_else (get_elem? hex_digits (byte % 16)) ""
    +s hex_encode bytes

-- A tick is a nanosecond; `as_millis` rounds down.
abbrev as_millis : ℕ → ℕ
as_millis ticks = ticks / 1_000_000

-- The text that `calculate_hash` hashes.
unfoldable pub hash_input : AuditEvent → String → String
hash_input e prev_hash = join "\n" (
    prev_hash
    ∷ e.event_id
    ∷ show_ℕ (as_millis e.timestamp)
    ∷ e.tenant_id
    ∷ e.device_id
    ∷ debug_action e.action
    ∷ debug_resource e.resource
    ∷ e.target
    ∷ e.params_digest
    ∷ e.result
    ∷ e.trace_id
    ∷ [])

pub record AuditChain : Type 0 where
  pub events : List AuditEvent

abbrev pub last_hash : List AuditEvent → String
last_hash es = elim (last? es) [ none ↦ "" | some e ↦ e.hash ]

module _ (sha256 : String → List ℕ) where
  unfoldable pub calculate_hash : AuditEvent → String → String
  calculate_hash e prev_hash = hex_encode (sha256 (hash_input e prev_hash))

  -- The event as `append` stores it behind the hash `prev`.
  unfoldable pub sealed : AuditEvent → String → AuditEvent
  sealed e prev =
      let linked = record e { prev_hash = prev } in
      record linked { hash = calculate_hash linked prev }

  unfoldable pub append : AuditChain → AuditEvent → AuditChain
  unfolding sealed
  append c e = record { events = c.events ++ sealed e (last_hash c.events) ∷ [] }

  -- The loop of `verify`.
  unfoldable pub verify_from : String → List AuditEvent → Bool
  verify_from expected [] = true
  verify_from expected (e ∷ es) =
      str_eq e.prev_hash expected
      && str_eq e.hash (calculate_hash e e.prev_hash)
      && verify_from e.hash es

  unfoldable pub verify : AuditChain → Bool
  unfolding verify_from
  verify c = verify_from "" c.events

unfoldable pub push_stored : AuditChain → AuditEvent → AuditChain
push_stored c e = record { events = c.events ++ e ∷ [] }
