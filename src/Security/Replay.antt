-- ===== src/Security/Replay.antt =====
-- crates/agent-core/src/security.rs, `ReplayGuard`: the window on timestamps and the nonces seen.
pub mod Laws
pub mod Traces
use cc_r_device_agent.Prelude.{
  ℕ, ◌-◌, String, ◌≡◌, ◌↔◌, Bool, true, ◌&&◌, [], Option, none, some, arith, Key, str_eq, eq_iff,
  ltb, leb, if◌then◌else◌, Result, ok, err,
}
use cc_r_device_agent.Prelude.Dict.{Dict, contains_key, get, insert, retain}
use cc_r_device_agent.Security.Types.{
  SecurityError, replay_detected, timestamp_out_of_window, Action, Principal, action_beq,
  action_beq_iff,
}

pub record ReplayKey : Type 0 where
  pub tenant_id : String
  pub device_id : String
  pub subject : String
  pub action : Action
  pub nonce : String

abbrev pub replay_key_beq : ReplayKey → ReplayKey → Bool
replay_key_beq a b =
    str_eq a.tenant_id b.tenant_id
    && str_eq a.device_id b.device_id
    && str_eq a.subject b.subject
    && action_beq a.action b.action
    && str_eq a.nonce b.nonce

pub replay_key_beq_iff : (a b : ReplayKey) → (replay_key_beq a b ≡ true) ↔ (a ≡ b)
replay_key_beq_iff a b = ground (
  arith,
  eq_iff a.tenant_id b.tenant_id,
  eq_iff a.device_id b.device_id,
  eq_iff a.subject b.subject,
  action_beq_iff a.action b.action,
  eq_iff a.nonce b.nonce,
)

instance abbrev pub replay_key_eq : Key ReplayKey
replay_key_eq = record { same = replay_key_beq; same_iff = replay_key_beq_iff }

pub record ReplayGuard : Type 0 where
  pub allowed_skew : ℕ
  pub seen : Dict ReplayKey ℕ

unfoldable pub new : ℕ → ReplayGuard
new skew = record { allowed_skew = skew; seen = [] }

-- `later.duration_since(earlier)`; `none` is its error, when `earlier` is the later one.
abbrev pub duration_since : ℕ → ℕ → Option ℕ
duration_since later earlier = if ltb later earlier then none else some (later - earlier)

-- The test by which `prune` retains an entry.
abbrev pub retained : ℕ → ℕ → ℕ → Bool
retained skew now timestamp = elim (duration_since now timestamp) [
  | some age ↦ leb age skew
  | none ↦ true
]

unfoldable pub prune : ReplayGuard → ℕ → ReplayGuard
prune g now = record g { seen = retain (retained g.allowed_skew now) g.seen }

abbrev pub key_of : Principal → Action → String → ReplayKey
key_of p action nonce = record {
  tenant_id = p.tenant_id;
  device_id = p.device_id;
  subject = p.subject;
  action = action;
  nonce = nonce;
}

-- The part of `check` behind the test of the window.
unfoldable pub admit : ReplayGuard → ReplayKey → ℕ → ReplayGuard × Result SecurityError (Unit {0})
admit g key timestamp =
    if contains_key key g.seen
    then (g, err replay_detected)
    else (record g { seen = insert key timestamp g.seen }, ok tt)

unfoldable pub check :
    ReplayGuard
    → Principal
    → Action
    → ℕ
    → String
    → ℕ
    → ReplayGuard × Result SecurityError (Unit {0})
unfolding prune admit
check g principal action timestamp nonce now =
    let delta =
      if leb now timestamp then duration_since timestamp now else duration_since now timestamp in
    elim delta [
      | none ↦ (g, err timestamp_out_of_window)
      | some d ↦
          if ltb g.allowed_skew d
          then (g, err timestamp_out_of_window)
          else admit (prune g now) (key_of principal action nonce) timestamp
    ]
