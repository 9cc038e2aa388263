-- ===== src/Chain/Interceptor.antt =====
-- crates/agent-core/src/chain.rs, `AuditWriter` and the `call` of `SecurityInterceptor`. A call is
-- a function of what it reads from outside (the clock, the trace id, the request, the answers of
-- the audit sink, of the lock and of the inner service) to its answer, the new security center and
-- the effects in the order in which they happen.
pub mod Laws
use cc_r_device_agent.Prelude.{
  ℕ, String, Bool, true, false, Option, none, some, List, [], ◌∷◌, if◌then◌else◌, Result, ok, err,
}
use cc_r_device_agent.Security.Types.{
  SecurityError, Resource, Action, Decision, allow, deny, AuthMethod, mtls, session_token,
  local_system, anonymous, Principal, RequestContext,
}
use cc_r_device_agent.Security.Center.{SecurityCenter, authorize_context}
use cc_r_device_agent.Security.Audit.{AuditEvent, new_event, calculate_hash}
use cc_r_device_agent.Chain.Mapper
use cc_r_device_agent.Chain.Identity.{CertInfo, PrincipalHeader, extract}

-- The `Status` codes that the interceptor answers with.
pub data Code : Type 0 where
  unauthenticated unimplemented permission_denied invalid_argument internal : Code

pub record SecurityContext : Type 0 where
  pub principal : Principal
  pub auth_method : AuthMethod
  pub request_context : RequestContext
  pub audit_entry : AuditEvent

-- What a call does to the world: it appends an event to the audit sink, which may fail, it hands
-- the request with its security context to the inner service, it sends an exit event.
pub data Effect : Type 0 where
  appended not_appended : AuditEvent → Effect
  handled : SecurityContext → Effect
  exit_sent : AuditEvent → Effect

pub record Incoming (Cert Headers : Type 0) : Type 0 where
  pub now : ℕ
  pub path : String
  pub trace_id : String
  pub peer_certs : Option (List Cert)
  pub headers : Headers

pub data Response (R E : Type 0) : Type 0 where
  answered : Result E R → Response R E
  refused : Code → Response R E

abbrev pub is_anonymous : AuthMethod → Bool
is_anonymous anonymous = true
is_anonymous _ = false

-- The answer, the security center and the effects, in their order.
abbrev pub Outcome : Type 0 → Type 0 → Type 0
Outcome R E = Response R E × SecurityCenter × List Effect

-- The event that `write_entry` hands to the sink.
unfoldable pub entry_of : (String → List ℕ) → AuditEvent → AuditEvent
entry_of sha256 e =
    let cleared = record e { prev_hash = "" } in
    record cleared { hash = calculate_hash sha256 cleared "" }

unfoldable pub write_entry :
    (String → List ℕ)
    → (AuditEvent → Result String (Unit {0}))
    → AuditEvent
    → Result String AuditEvent × Effect
unfolding entry_of
write_entry sha256 sink e = elim (sink (entry_of sha256 e)) [
  | ok _ ↦ (ok (entry_of sha256 e), appended (entry_of sha256 e))
  | err m ↦ (err m, not_appended (entry_of sha256 e))
]

abbrev pub exit_result : {E R : Type 0} → Result E R → String
exit_result (ok _) = "success"
exit_result (err _) = "failed"

module _ {Cert Headers : Type 0} (r : Incoming Cert Headers) (principal : Principal) where
  abbrev pub event_for : Action → Resource → String → String → AuditEvent
  event_for action resource result trace_id =
      new_event r.trace_id r.now principal action resource r.path result trace_id

  abbrev pub context_of : AuthMethod → Resource → Action → RequestContext
  context_of method resource action = record {
    principal = principal;
    resource = resource;
    action = action;
    auth_method = method;
    timestamp = r.now;
    nonce = r.trace_id;
    trace_id = r.trace_id;
  }

module _ {Cert Headers R E : Type 0} (parse_cert : Cert → Option CertInfo)
    (principal_header : Headers → Option PrincipalHeader) (sha256 : String → List ℕ)
    (sink : AuditEvent → Result String (Unit {0})) (lock_ok : Bool)
    (inner : SecurityContext → Result E R) (default_tenant : String) where
  -- Steps 6 to 8: inject the context, call the inner service, send the exit event.
  unfoldable pub serve :
      Incoming Cert Headers
      → SecurityCenter
      → Principal
      → AuthMethod
      → Resource
      → Action
      → AuditEvent
      → Effect
      → Outcome R E
  serve r sc principal method resource action entry written =
      let ctx : SecurityContext = record {
        principal = principal;
        auth_method = method;
        request_context = context_of r principal method resource action;
        audit_entry = entry;
      } in
      let response = inner ctx in
      let exit = event_for r principal action resource (exit_result response) entry.event_id in
      (answered response, sc, written ∷ handled ctx ∷ exit_sent exit ∷ [])

  -- Step 5: the audit entry, without which the request is denied.
  unfoldable pub enter :
      Incoming Cert Headers
      → SecurityCenter
      → Principal
      → AuthMethod
      → Resource
      → Action
      → Outcome R E
  unfolding write_entry serve
  enter r sc principal method resource action =
      let (written, effect) =
        write_entry sha256 sink (event_for r principal action resource "in_progress" r.trace_id) in
      elim written [
        | ok entry ↦ serve r sc principal method resource action entry effect
        | err _ ↦ (refused internal, sc, effect ∷ [])
      ]

  -- Steps 3 and 4: build the context, authorize, and record a denial.
  unfoldable pub decide :
      Incoming Cert Headers
      → SecurityCenter
      → Principal
      → AuthMethod
      → Resource
      → Action
      → Outcome R E
  unfolding enter
  decide r sc principal method resource action =
      let (sc', decision) =
        authorize_context sc (context_of r principal method resource action) r.now in
      let denied =
        write_entry sha256 sink (event_for r principal action resource "denied" r.trace_id) in
      if lock_ok
      then elim decision [
        | ok deny ↦ (refused permission_denied, sc', denied.1 ∷ [])
        | err _ ↦ (refused invalid_argument, sc', denied.1 ∷ [])
        | ok allow ↦ enter r sc' principal method resource action
      ]
      else (refused internal, sc, [])

  -- Steps 1 and 2: extract the identity, map the resource.
  unfoldable pub call : Incoming Cert Headers → SecurityCenter → Outcome R E
  unfolding decide
  call r sc =
      let (principal, method) =
        extract parse_cert principal_header default_tenant r.peer_certs r.headers in
      if is_anonymous method then (refused unauthenticated, sc, []) else elim (Mapper.map r.path) [
        | none ↦ (refused unimplemented, sc, [])
        | some (resource, action) ↦ decide r sc principal method resource action
      ]
