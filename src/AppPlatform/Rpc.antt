-- ===== src/AppPlatform/Rpc.antt =====
-- src/app_platform.rs, `secured_rpc`: the path of every call from the session to the exit event.
use cc_r_device_agent.Prelude.{
  ℕ, String, Option, none, some, List, [], ◌∷◌, if◌then◌else◌, Result, ok, err, ◌+s◌,
}
use cc_r_device_agent.Security.Types.{
  SecurityError, replay_detected, timestamp_out_of_window, invalid_key_material,
  signature_verification_failed, Decision, allow, deny, session_token, RequestContext,
}
use cc_r_device_agent.Security.Center.{SecurityCenter, authorize_context}
use cc_r_device_agent.Security.Audit.{AuditEvent, new_event}
use cc_r_device_agent.Chain.Interceptor.{
  Code, unauthenticated, permission_denied, invalid_argument, internal, Effect, exit_sent,
  write_entry,
}
use cc_r_device_agent.Store.Sessions.{AppTables}
use cc_r_device_agent.Lifecycle.Platform.{Platform}
use cc_r_device_agent.AppPlatform.State.{
  Status, Library, Reads, AppAuditMeta, AppRpcSecurity, RpcEffect, audited, ran, AppPlatformState,
}
use cc_r_device_agent.AppPlatform.Session.{validate_session}

-- `Display` of a security error.
unfoldable pub error_text : SecurityError → String
error_text replay_detected = "replay detected"
error_text timestamp_out_of_window = "timestamp is outside the allowed replay window"
error_text invalid_key_material = "invalid key material"
error_text signature_verification_failed = "signature verification failed"

unfoldable pub status_to_audit_result : Status → String
status_to_audit_result status = elim status.code [
  | unauthenticated ↦ "unauthenticated"
  | permission_denied ↦ "denied"
  | invalid_argument ↦ "invalid_argument"
  | _ ↦ "failed"
]

-- An event of a call: the suffix of its id, its time and its result.
unfoldable pub event_of : AppAuditMeta → String → String → ℕ → String → AuditEvent
event_of meta trace_id suffix at result =
    record (new_event (trace_id +s suffix) at meta.principal meta.action meta.resource meta.target
      result trace_id) { params_digest = meta.params_digest }

unfoldable pub write_audit_exit : AppAuditMeta → String → ℕ → String → RpcEffect
unfolding event_of
write_audit_exit meta trace_id at result =
    audited (exit_sent (event_of meta trace_id ":exit" at result))

abbrev pub context_of : AppAuditMeta → Reads → RequestContext
context_of meta r = record {
  principal = meta.principal;
  resource = meta.resource;
  action = meta.action;
  auth_method = session_token;
  timestamp = r.now;
  nonce = r.trace_id;
  trace_id = r.trace_id;
}

abbrev pub result_label : {T : Type 0} → Result Status T → String
result_label (ok _) = "success"
result_label (err status) = status_to_audit_result status

module _ (pal : Platform) where
  abbrev pub Handler : Type 0 → Type 0
  Handler T = AppPlatformState pal → Result Status T × AppPlatformState pal

  -- The answer, the state after the call and its effects in their order.
  abbrev pub Outcome : Type 0 → Type 0
  Outcome T = Result Status T × AppPlatformState pal × List RpcEffect

-- The check of the session, where the call has one.
abbrev pub checked :
    Library → Reads → Option (String × String) → AppTables → Result Status (Unit {0})
checked lib r none t = ok tt
checked lib r (some (app_id, token)) t = validate_session lib app_id token r.checked_at t

module _ (pal : Platform) (lib : Library) (r : Reads) {T : Type 0} where
  abbrev pub failing : Code → String → AppPlatformState pal → List RpcEffect → Outcome pal T
  failing code message s effects = (err (record { code = code; message = message }), s, effects)

  -- The handler and the exit event.
  unfoldable pub run_handler :
      AppAuditMeta → Handler pal T → RpcEffect → AppPlatformState pal → Outcome pal T
  unfolding write_audit_exit
  run_handler meta handler entry s =
      let (result, s') = handler s in
      (
        result,
        s',
        entry ∷ ran ∷ write_audit_exit meta r.trace_id r.finished (result_label result) ∷ [],
      )

  -- Behind the write of the entry event.
  unfoldable pub entered :
      AppAuditMeta
      → Handler pal T
      → AppPlatformState pal
      → Result String AuditEvent × Effect
      → Outcome pal T
  unfolding run_handler
  entered meta handler s (ok _, effect) = run_handler meta handler (audited effect) s
  entered meta handler s (err e, effect) =
      failing internal ("audit entry write failed: " +s e) s (audited effect ∷ [])

  -- The entry event, without which the handler does not run.
  unfoldable pub with_entry : AppAuditMeta → Handler pal T → AppPlatformState pal → Outcome pal T
  unfolding write_entry event_of entered
  with_entry meta handler s =
      entered meta handler s
        (write_entry lib.sha256 r.sink (event_of meta r.trace_id ":entry" r.now "in_progress"))

  -- Behind `authorize`.
  unfoldable pub decided :
      AppAuditMeta
      → Handler pal T
      → AppPlatformState pal
      → SecurityCenter × Result SecurityError Decision
      → Outcome pal T
  unfolding write_entry event_of with_entry error_text
  decided meta handler s (sc, err e) =
      failing permission_denied (error_text e) (record s { security_center = some sc }) []
  decided meta handler s (sc, ok deny) =
      let denied =
        write_entry lib.sha256 r.sink (event_of meta r.trace_id ":deny" r.now "denied") in
      failing permission_denied "rbac deny" (record s { security_center = some sc })
        (audited denied.1 ∷ [])
  decided meta handler s (sc, ok allow) =
      with_entry meta handler (record s { security_center = some sc })

  unfoldable pub authorized :
      AppAuditMeta → Handler pal T → SecurityCenter → AppPlatformState pal → Outcome pal T
  unfolding decided
  authorized meta handler sc s =
      if r.lock_ok
      then decided meta handler s (authorize_context sc (context_of meta r) r.now)
      else failing internal "security center lock poisoned" s []

  -- Behind the check of the session.
  unfoldable pub with_session :
      AppRpcSecurity
      → Handler pal T
      → SecurityCenter
      → AppPlatformState pal
      → Result Status (Unit {0})
      → Outcome pal T
  unfolding authorized write_audit_exit
  with_session security handler sc s (ok _) = authorized security.audit handler sc s
  with_session security handler sc s (err status) = (
    err status,
    s,
    write_audit_exit security.audit r.trace_id r.finished (status_to_audit_result status) ∷ [],
  )

  unfoldable pub secured_rpc : AppRpcSecurity → Handler pal T → AppPlatformState pal → Outcome pal T
  unfolding with_session
  secured_rpc security handler s = elim s.security_center [
    | none ↦ failing internal "security not configured" s []
    | some sc ↦
        if s.audit_writer
        then with_session security handler sc s (checked lib r security.session s.store)
        else failing internal "security not configured" s []
  ]
