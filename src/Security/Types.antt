-- ===== src/Security/Types.antt =====
-- The data types of crates/agent-core/src/security.rs. A `SystemTime` is a natural number of
-- ticks since the epoch; a `Duration` is a number of ticks.
use cc_r_device_agent.Prelude.{ℕ, String, ◌≡◌, ◌↔◌, Bool, true, arith, Key, ◌==◌}

pub data SecurityError : Type 0 where
  replay_detected timestamp_out_of_window invalid_key_material : SecurityError
  signature_verification_failed : SecurityError

pub data Role : Type 0 where
  admin operator readonly : Role

pub data Resource : Type 0 where
  telemetry control_command file_transfer configuration upgrade app_control : Resource
  security_policy : Resource

pub data Action : Type 0 where
  read execute write manage : Action

pub data Decision : Type 0 where
  allow deny : Decision

pub data AuthMethod : Type 0 where
  mtls session_token local_system anonymous : AuthMethod

pub record Principal : Type 0 where
  pub tenant_id : String
  pub device_id : String
  pub subject : String
  pub role : Role

pub record SecurityRequest : Type 0 where
  pub principal : Principal
  pub resource : Resource
  pub action : Action
  pub timestamp : ℕ
  pub nonce : String

pub record RequestContext : Type 0 where
  pub principal : Principal
  pub resource : Resource
  pub action : Action
  pub auth_method : AuthMethod
  pub timestamp : ℕ
  pub nonce : String
  pub trace_id : String

unfoldable pub security_request : RequestContext → SecurityRequest
security_request c = record {
  principal = c.principal;
  resource = c.resource;
  action = c.action;
  timestamp = c.timestamp;
  nonce = c.nonce;
}

-- The derived equalities, by the position of each variant.
abbrev role_index : Role → ℕ
role_index admin = 0
role_index operator = 1
role_index readonly = 2

abbrev resource_index : Resource → ℕ
resource_index telemetry = 0
resource_index control_command = 1
resource_index file_transfer = 2
resource_index configuration = 3
resource_index upgrade = 4
resource_index app_control = 5
resource_index security_policy = 6

abbrev action_index : Action → ℕ
action_index read = 0
action_index execute = 1
action_index write = 2
action_index manage = 3

abbrev pub role_beq : Role → Role → Bool
role_beq a b = role_index a == role_index b

abbrev pub resource_beq : Resource → Resource → Bool
resource_beq a b = resource_index a == resource_index b

abbrev pub action_beq : Action → Action → Bool
action_beq a b = action_index a == action_index b

pub role_beq_iff : (a b : Role) → (role_beq a b ≡ true) ↔ (a ≡ b)
role_beq_iff a b = ground arith

pub resource_beq_iff : (a b : Resource) → (resource_beq a b ≡ true) ↔ (a ≡ b)
resource_beq_iff a b = ground arith

pub action_beq_iff : (a b : Action) → (action_beq a b ≡ true) ↔ (a ≡ b)
action_beq_iff a b = ground arith

instance abbrev pub role_eq : Key Role
role_eq = record { same = role_beq; same_iff = role_beq_iff }

instance abbrev pub resource_eq : Key Resource
resource_eq = record { same = resource_beq; same_iff = resource_beq_iff }

instance abbrev pub action_eq : Key Action
action_eq = record { same = action_beq; same_iff = action_beq_iff }
