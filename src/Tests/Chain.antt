-- ===== src/Tests/Chain.antt =====
-- crates/agent-core/src/chain.rs at concrete requests.
use Prim.Native.Char.{code}
use cc_r_device_agent.Prelude.{
  ◌⊎◌, ℕ, String, ◌≡◌, refl, Bool, true, false, ◌&&◌, Option, none, some, List, [], ◌∷◌, Result, ok,
  all, ◌+s◌,
}
use cc_r_device_agent.Prelude.Dict
use cc_r_device_agent.Security.Types.{
  Role, control_command, execute, Principal, resource_beq, action_beq,
}
use cc_r_device_agent.Security.Rbac.{default_policy, authorize}
use cc_r_device_agent.Security.Replay.{replay_key_eq, check}
use cc_r_device_agent.Security.Center.{SecurityCenter, authorize_context}
use cc_r_device_agent.Security.Audit.{AuditEvent, new_event}
use cc_r_device_agent.Chain.Mapper
use cc_r_device_agent.Chain.Mapper.{arms, map}
use cc_r_device_agent.Chain.Identity.{
  CertInfo, PrincipalHeader, extract, principal_of_cert, principal_of_header, role_of_header,
  infer_tenant, strip_prefix, first_part,
}
use cc_r_device_agent.Chain.Identity.Laws.{cert_info, extract-admin}
use cc_r_device_agent.Chain.Interceptor.{
  permission_denied, Incoming, SecurityContext, answered, refused, call,
}
use cc_r_device_agent.Chain.Interceptor.Laws.{run, IsPassed, IsTurnedAway, call-cases, call-served}

-- Every arm of the table is the one that its own path finds.
abbrev finds_itself : Mapper.Arm → Bool
finds_itself m = elim (map (m.service +s "/" +s m.method)) [
  | none ↦ false
  | some (r, a) ↦ resource_beq r m.resource && action_beq a m.action
]

arms_found : all finds_itself arms ≡ true
unfolding map arms
arms_found = refl

unknown_path : map "/cc.grpc.v1.DeviceControl/Format" ≡ none
unfolding map
unknown_path = refl

reboot_mapped : map "/cc.grpc.v1.DeviceControl/Reboot" ≡ some (control_command, execute)
unfolding map
reboot_mapped = refl

abbrev person : Role → Principal
person r = record { tenant_id = "default"; device_id = "dev-1"; subject = "dev-1"; role = r }

-- Certificates and headers that come parsed.
abbrev parse_cert : Option CertInfo → Option CertInfo
parse_cert c = c

abbrev header : Option PrincipalHeader → Option PrincipalHeader
header h = h

abbrev device_cert : CertInfo
device_cert = record { common_name = some "dev-1"; dns_names = [] }

abbrev admin_header : PrincipalHeader
admin_header = record {
  tenant_id = none;
  device_id = some "dev-9";
  subject = some "root";
  role = some "admin";
}

extract-admin_example :
    (cert_info parse_cert header none ≡ none)
    × ((h : PrincipalHeader) × (header (some admin_header) ≡ some h) × (h.role ≡ some "admin"))
extract-admin_example =
    extract-admin parse_cert header "default" none (some admin_header)
      (unfold extract principal_of_header role_of_header in refl)

-- The tenant is read of a name that starts with `tenant-`, and of no other.
tenant_of_prefix : infer_tenant "default" ("tenant-acme.example.com" ∷ []) ≡ "acme"
unfolding infer_tenant strip_prefix first_part
tenant_of_prefix = refl

tenant_inside_ignored : infer_tenant "default" ("device-1.tenant-acme.example.com" ∷ []) ≡ "default"
unfolding infer_tenant strip_prefix first_part
tenant_inside_ignored = refl

abbrev toy_digest : String → List ℕ
toy_digest String.[] = []
toy_digest (String.◌∷◌ c s) = code c ∷ toy_digest s

abbrev open_sink : AuditEvent → Result String (Unit {0})
open_sink e = ok tt

abbrev handler : SecurityContext → Result String ℕ
handler ctx = ok 7

abbrev reboot :
    Option CertInfo → Option PrincipalHeader → Incoming (Option CertInfo) (Option PrincipalHeader)
reboot cert h = record {
  now = 1000;
  path = "/cc.grpc.v1.DeviceControl/Reboot";
  trace_id = "t1";
  peer_certs = some (cert ∷ []);
  headers = h;
}

abbrev center : SecurityCenter
center = record { policy = default_policy; replay_guard = record { allowed_skew = 60; seen = [] } }

abbrev by_cert : Incoming (Option CertInfo) (Option PrincipalHeader)
by_cert = reboot (some device_cert) none

abbrev reader_header : PrincipalHeader
reader_header = record admin_header { role = some "readonly" }

abbrev by_reader : Incoming (Option CertInfo) (Option PrincipalHeader)
by_reader = reboot none (some reader_header)

operator_reboots :
    (run parse_cert header toy_digest open_sink true handler "default" by_cert center).0
    ≡ answered (ok 7)
unfolding call map extract principal_of_cert principal_of_header role_of_header infer_tenant
    authorize_context authorize default_policy check Dict.get Dict.retain Dict.insert new_event
operator_reboots = refl

reader_refused :
    (run parse_cert header toy_digest open_sink true handler "default" by_reader center).0
    ≡ refused permission_denied
unfolding call map extract principal_of_cert principal_of_header role_of_header infer_tenant
    authorize_context authorize default_policy check Dict.get Dict.retain Dict.insert new_event
reader_refused = refl

call-cases_example :
    IsPassed parse_cert header toy_digest open_sink true handler "default" by_reader center
    ⊎ IsTurnedAway parse_cert header toy_digest open_sink true handler "default" by_reader center
call-cases_example =
    call-cases parse_cert header toy_digest open_sink true handler "default" by_reader center

call-served_example :
    (run parse_cert header toy_digest open_sink true handler "default" by_cert center).0
    ≡ answered (ok 7)
call-served_example =
    call-served parse_cert header toy_digest open_sink true handler "default" by_cert center
      control_command execute (unfold extract principal_of_cert in refl) reboot_mapped refl
      (unfold authorize default_policy extract principal_of_cert Dict.get in refl)
      (unfold Dict.get in refl) refl
