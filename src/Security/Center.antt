-- ===== src/Security/Center.antt =====
-- crates/agent-core/src/security.rs: `BasicSecurityCenter`, device identities, key references and
-- signatures. The Ed25519 verification of the crate `ring` is a parameter.
pub mod Laws
use cc_r_device_agent.Prelude.{
  ℕ, String, Bool, true, false, ◌||◌, Option, none, some, List, [], any, if◌then◌else◌, str_eq,
  Result, ok, err,
}
use cc_r_device_agent.Security.Types.{
  SecurityError, invalid_key_material, signature_verification_failed, Action, Decision, allow, deny,
  Principal, SecurityRequest, RequestContext, security_request,
}
use cc_r_device_agent.Security.Rbac.{RbacPolicy, authorize}
use cc_r_device_agent.Security.Replay.{ReplayGuard, check}

pub data SecurityLevel : Type 0 where
  hardware_backed os_keyring file_backed volatile : SecurityLevel

-- `CapabilityProfile` has more fields; these are the two that are read.
unfoldable pub from_capability_profile :
    record { has_tpm : Bool; has_os_keyring : Bool } → SecurityLevel
from_capability_profile profile =
    if profile.has_tpm
    then hardware_backed
    else if profile.has_os_keyring
    then os_keyring
    else file_backed

pub data KeyMaterial : Type 0 where
  inline_public_key : List ℕ → KeyMaterial
  store_reference credential_reference : String → KeyMaterial

pub record KeyRef : Type 0 where
  pub name : String
  pub purpose : String
  pub security_level : SecurityLevel
  pub material : KeyMaterial

-- `KeyRef::inline_public_key` and `KeyRef::store_reference`.
unfoldable pub inline_key_ref : String → List ℕ → KeyRef
inline_key_ref name public_key = record {
  name = name;
  purpose = "ed25519-verify";
  security_level = file_backed;
  material = inline_public_key public_key;
}

unfoldable pub store_key_ref : String → String → SecurityLevel → KeyRef
store_key_ref name purpose security_level = record {
  name = name;
  purpose = purpose;
  security_level = security_level;
  material = store_reference name;
}

pub record DeviceIdentityBinding : Type 0 where
  pub device_id : String
  pub tenant_id : String
  pub dns_names : List String
  pub common_name : Option String

abbrev is_name : Option String → String → Bool
is_name none expected = false
is_name (some name) expected = str_eq name expected

unfoldable pub matches_device_id : DeviceIdentityBinding → String → Bool
matches_device_id b expected =
    str_eq b.device_id expected
    || any (λ name. str_eq name expected) b.dns_names
    || is_name b.common_name expected

pub record SecurityCenter : Type 0 where
  pub policy : RbacPolicy
  pub replay_guard : ReplayGuard

-- `?` behind the call of the guard, then `Ok(Decision::Allow)`.
abbrev allow_if_ok : Result SecurityError (Unit {0}) → Result SecurityError Decision
allow_if_ok (ok _) = ok allow
allow_if_ok (err e) = err e

unfoldable pub authorize_request :
    SecurityCenter → SecurityRequest → ℕ → SecurityCenter × Result SecurityError Decision
authorize_request sc r now = elim (authorize sc.policy r.principal r.resource r.action) [
  | deny ↦ (sc, ok deny)
  | allow ↦
      let (guard, checked) = check sc.replay_guard r.principal r.action r.timestamp r.nonce now in
      (record sc { replay_guard = guard }, allow_if_ok checked)
]

-- The trait's `authorize`.
unfoldable pub authorize_context :
    SecurityCenter → RequestContext → ℕ → SecurityCenter × Result SecurityError Decision
unfolding authorize_request security_request
authorize_context sc c now = authorize_request sc (security_request c) now

-- The trait's `authenticate` and `check_replay`.
unfoldable pub authenticate : RequestContext → Result SecurityError Principal
authenticate c = ok c.principal

unfoldable pub check_replay :
    SecurityCenter
    → Principal
    → Action
    → ℕ
    → String
    → ℕ
    → SecurityCenter × Result SecurityError (Unit {0})
check_replay sc principal action timestamp nonce now =
    let (guard, checked) = check sc.replay_guard principal action timestamp nonce now in
    (record sc { replay_guard = guard }, checked)

unfoldable pub verify_device_identity :
    DeviceIdentityBinding → String → Result SecurityError (Unit {0})
verify_device_identity b expected =
    if matches_device_id b expected then ok tt else err invalid_key_material

-- `UnparsedPublicKey::new(&ED25519, key).verify(payload, signature)`: key, payload, signature.
module _ (ed25519_verify : List ℕ → List ℕ → List ℕ → Bool) where
  unfoldable pub verify_with : KeyMaterial → List ℕ → List ℕ → Result SecurityError (Unit {0})
  verify_with (inline_public_key key) payload signature =
      if ed25519_verify key payload signature then ok tt else err signature_verification_failed
  verify_with (store_reference _) payload signature = err invalid_key_material
  verify_with (credential_reference _) payload signature = err invalid_key_material

  unfoldable pub verify_ed25519_signature :
      List ℕ → List ℕ → KeyRef → Result SecurityError (Unit {0})
  unfolding verify_with
  verify_ed25519_signature payload signature key_ref =
      verify_with key_ref.material payload signature
