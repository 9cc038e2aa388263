-- ===== src/Chain/Identity.antt =====
-- crates/agent-core/src/chain.rs, `IdentityExtractor`: who sends a request. The X.509 parser (crate
-- `x509-parser`) and the JSON of the header (crates `http` and `serde_json`) are parameters.
pub mod Laws
use Prim.Native.Char.{Char, code}
use Prim.Native.String
use cc_r_device_agent.Prelude.{
  ℕ, String, Bool, true, false, ◌&&◌, Option, none, some, List, [], ◌∷◌, ◌==◌, if◌then◌else◌,
  str_eq, or_else,
}
use cc_r_device_agent.Security.Types.{
  Role, admin, operator, readonly, AuthMethod, mtls, session_token, anonymous, Principal,
}

-- What is read of a certificate: the first common name, if it is a text, and the DNS names of the
-- subject alternative name, none if there is no such extension.
pub record CertInfo : Type 0 where
  pub common_name : Option String
  pub dns_names : List String

pub record PrincipalHeader : Type 0 where
  pub tenant_id : Option String
  pub device_id : Option String
  pub subject : Option String
  pub role : Option String

-- `s.strip_prefix(prefix)`.
unfoldable pub strip_prefix : String → String → Option String
strip_prefix String.[] s = some s
strip_prefix (String.◌∷◌ p ps) String.[] = none
strip_prefix (String.◌∷◌ p ps) (String.◌∷◌ c s) =
    if code p == code c then strip_prefix ps s else none

-- `s.split(sep).next()`, which is always there.
unfoldable pub first_part : ℕ → String → String
first_part sep String.[] = ""
first_part sep (String.◌∷◌ c s) = if code c == sep then "" else String.◌∷◌ c (first_part sep s)

unfoldable pub infer_tenant : String → List String → String
infer_tenant default_tenant [] = default_tenant
infer_tenant default_tenant (name ∷ names) = elim (strip_prefix "tenant-" name) [
  | some rest ↦ first_part b'.' rest
  | none ↦ infer_tenant default_tenant names
]

abbrev head? : List String → Option String
head? [] = none
head? (x ∷ xs) = some x

-- `a.or_else(|| b)`.
abbrev or_option : Option String → Option String → Option String
or_option none b = b
or_option (some a) b = some a

unfoldable pub principal_of_cert : String → CertInfo → Principal
principal_of_cert default_tenant cert =
    let device_id = or_else (or_option (head? cert.dns_names) cert.common_name) "unknown-device" in
    record {
      tenant_id = infer_tenant default_tenant cert.dns_names;
      device_id = device_id;
      subject = device_id;
      role = operator;
    }

unfoldable pub role_of_header : Option String → Role
role_of_header none = operator
role_of_header (some r) =
    if str_eq r "admin" then admin else if str_eq r "readonly" then readonly else operator

unfoldable pub principal_of_header : String → PrincipalHeader → Principal
principal_of_header default_tenant h = record {
  tenant_id = or_else h.tenant_id default_tenant;
  device_id = or_else h.device_id "unknown";
  subject = or_else h.subject "unknown";
  role = role_of_header h.role;
}

unfoldable pub anonymous_principal : String → Principal
anonymous_principal default_tenant = record {
  tenant_id = default_tenant;
  device_id = "unknown";
  subject = "anonymous";
  role = readonly;
}

-- `parse_cert` is `parse_x509_certificate` on the DER bytes, `principal_header` the JSON of the
-- header `x-cc-principal`; each is `none` where the source's `?` returns.
module _ {Cert Headers : Type 0} (parse_cert : Cert → Option CertInfo)
    (principal_header : Headers → Option PrincipalHeader) where
  -- `try_extract_from_certs`: only the first certificate is read.
  unfoldable pub extract_from_certs : String → List Cert → Option Principal
  extract_from_certs default_tenant [] = none
  extract_from_certs default_tenant (cert ∷ _) = elim (parse_cert cert) [
    | none ↦ none
    | some info ↦ some (principal_of_cert default_tenant info)
  ]

  unfoldable pub extract_from_header : String → Headers → Option Principal
  extract_from_header default_tenant headers = elim (principal_header headers) [
    | none ↦ none
    | some h ↦ some (principal_of_header default_tenant h)
  ]

  -- The identity of a request without a usable certificate.
  unfoldable pub extract_fallback : String → Headers → Principal × AuthMethod
  unfolding extract_from_header
  extract_fallback default_tenant headers = elim (extract_from_header default_tenant headers) [
    | some principal ↦ (principal, session_token)
    | none ↦ (anonymous_principal default_tenant, anonymous)
  ]

  unfoldable pub extract : String → Option (List Cert) → Headers → Principal × AuthMethod
  unfolding extract_from_certs extract_fallback
  extract default_tenant none headers = extract_fallback default_tenant headers
  extract default_tenant (some certs) headers = elim (extract_from_certs default_tenant certs) [
    | some principal ↦ (principal, mtls)
    | none ↦ extract_fallback default_tenant headers
  ]
