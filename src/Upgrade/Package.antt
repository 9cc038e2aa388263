-- ===== src/Upgrade/Package.antt =====
-- src/upgrade_engine.rs: the manifest of an upgrade and the checks of the manifest and the package.
use cc_r_device_agent.Prelude.{
  ℕ, String, ◌+s◌, Bool, not, ◌||◌, Option, none, some, List, Result, ok, err, ◌==◌, str_eq,
  if◌then◌else◌,
}
use cc_r_device_agent.Security.Types.{SecurityError}
use cc_r_device_agent.Security.Center.{inline_key_ref, verify_ed25519_signature}

pub record UpgradeManifest : Type 0 where
  pub app_id : String
  pub app_name : String
  pub from_version : String
  pub to_version : String
  pub public_key_b64 : String
  pub signature_b64 : String
  pub package_sha256 : String
  pub build_number : ℕ
  pub pre_activate_script : Option String
  pub post_activate_script : Option String

pub data UpgradeError : Type 0 where
  empty_app_id empty_to_version zero_build_number : UpgradeError
  package_not_found sha256_mismatch incomplete_signature bad_base64 : UpgradeError
  unreadable strategy_failed : String → UpgradeError
  signature_failed : SecurityError → UpgradeError

abbrev pub is_empty : String → Bool
is_empty s = str_eq s ""

unfoldable pub validate_manifest : UpgradeManifest → Result UpgradeError (Unit {0})
validate_manifest m =
    if is_empty m.app_id
    then err empty_app_id
    else if is_empty m.to_version
    then err empty_to_version
    else if m.build_number == 0
    then err zero_build_number
    else ok tt

-- What ring, base16 and base64 and the standard library's `to_ascii_lowercase` compute.
pub record Codecs : Type 0 where
  pub sha256 : List ℕ → List ℕ
  pub encode_lower : List ℕ → String
  pub to_ascii_lowercase : String → String
  pub decode_base64 : String → Option (List ℕ)
  pub ed25519_verify : List ℕ → List ℕ → List ℕ → Bool

-- A path at which nothing is, or what reading it gives.
abbrev pub File : Type 0
File = Option (Result String (List ℕ))

module _ (c : Codecs) where
  unfoldable pub sha256_agrees : UpgradeManifest → List ℕ → Bool
  sha256_agrees m digest =
      is_empty m.package_sha256
      || str_eq (c.encode_lower digest) (c.to_ascii_lowercase m.package_sha256)

  abbrev pub lift_security : Result SecurityError (Unit {0}) → Result UpgradeError (Unit {0})
  lift_security (ok _) = ok tt
  lift_security (err e) = err (signature_failed e)

  unfoldable pub verify_signature : UpgradeManifest → List ℕ → Result UpgradeError (Unit {0})
  verify_signature m digest =
      if not (is_empty m.signature_b64) || not (is_empty m.public_key_b64)
      then if is_empty m.signature_b64 || is_empty m.public_key_b64
        then err incomplete_signature
        else elim (c.decode_base64 m.signature_b64) [
          | none ↦ err bad_base64
          | some signature ↦ elim (c.decode_base64 m.public_key_b64) [
            | none ↦ err bad_base64
            | some key ↦ lift_security (
                verify_ed25519_signature c.ed25519_verify digest signature
                  (inline_key_ref ("upgrade:" +s m.app_id) key))
          ]
        ]
      else ok tt

  unfoldable pub verify_package : UpgradeManifest → File → Result UpgradeError (Unit {0})
  unfolding sha256_agrees verify_signature
  verify_package m none = err package_not_found
  verify_package m (some (err e)) = err (unreadable e)
  verify_package m (some (ok bytes)) =
      let digest = c.sha256 bytes in
      if sha256_agrees m digest then verify_signature m digest else err sha256_mismatch
