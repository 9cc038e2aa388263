-- ===== src/AppPlatform/Roles.antt =====
-- What the role of an application lets it do under the default policy, and whom a registration
-- takes the place of.
use cc_r_device_agent.Prelude.{ℕ, String, ◌≡◌, ◌≢◌, refl, sym, ap, ◌∙◌, inl, inr, some, ok}
use mathlib.Core.Path.{subst}
use mathlib.Core.Option.{some-injective}
use cc_r_device_agent.Security.Types.{readonly, read, allow}
use cc_r_device_agent.Security.Rbac.{default_policy, authorize}
use cc_r_device_agent.Security.Rbac.Matrix.{authorize_mono}
use cc_r_device_agent.Security.Center.{SecurityCenter}
use cc_r_device_agent.Security.Center.Laws.{authorize_context-allow_iff}
use cc_r_device_agent.Lifecycle.Platform.{Platform}
use cc_r_device_agent.AppPlatform.State.{Library, Reads, AppRpcSecurity, AppPlatformState}
use cc_r_device_agent.AppPlatform.Session.{app_principal, hash_token, validate_session}
use cc_r_device_agent.AppPlatform.Tokens.{validate_session-ok_iff}
use cc_r_device_agent.AppPlatform.Rpc.{Handler, context_of, secured_rpc}
use cc_r_device_agent.AppPlatform.Handlers.{
  RegisterAppRequest, RegisterAppResponse, HealthReport, PublishDataRequest, heartbeat_handler,
  unregister_handler, report_health_handler, publish_data_handler, session_of,
}
use cc_r_device_agent.AppPlatform.Guard.{IsRefused, secured_rpc-cases}
use cc_r_device_agent.AppPlatform.Lifetime.{register_app-stored, stored, stored-IsStored}
use cc_r_device_agent.AppPlatform.Calls.{
  session_security, health_security, publish_security, heartbeat, report_health, publish_data,
  unregister_app, register_app,
}

module _ (pal : Platform) (lib : Library) (r : Reads) (s : AppPlatformState pal)
    (sc : SecurityCenter) (e : s.security_center ≡ some sc)
    (default : sc.policy ≡ default_policy) where
  readonly-IsRefused :
      {T : Type 0} (security : AppRpcSecurity) (handler : Handler pal T)
      → security.audit.principal.role ≡ readonly
      → security.audit.action ≢ read
      → IsRefused pal lib r s (secured_rpc pal lib r security handler s)
  readonly-IsRefused security handler role writes =
      elim (secured_rpc-cases pal lib r security handler s) [
        | inr v ↦ v
        | inl v ↦
            let same : v.sc ≡ sc = some-injective v.sc sc (sym v.configured ∙ e) in
            let audit = security.audit in
            let allowed =
              ((authorize_context-allow_iff v.sc (context_of audit r) r.now).0
                (ap (λ o. o.1) v.allowed)).0 in
            let permitted : authorize default_policy audit.principal audit.resource audit.action
                ≡ allow =
              subst (λ p. authorize p audit.principal audit.resource audit.action ≡ allow)
                (ap (λ c. c.policy) same ∙ default) allowed in
            absurd (
              writes
                ((authorize_mono audit.principal audit.resource audit.action permitted).2 role))
      ]

  -- Under the default policy, for an application with the role `readonly`: its heartbeat, its
  -- unregistration, its health reports and its messages are all answered with an error, without a run
  -- of the handler, and change nothing but the replay guard.
  pub readonly_calls :
      (app_id token : String) (report : HealthReport) (message : PublishDataRequest)
      → (app_principal lib s.device_id app_id s.store).role ≡ readonly
      → report.app_id ≡ app_id
      → message.app_id ≡ app_id
      → IsRefused pal lib r s (heartbeat pal lib app_id token r s)
        × IsRefused pal lib r s (unregister_app pal lib app_id token r s)
        × IsRefused pal lib r s (report_health pal lib report r s)
        × IsRefused pal lib r s (publish_data pal lib message r s)
  unfolding heartbeat unregister_app report_health publish_data
  readonly_calls app_id token report message role same same' =
      let role_of : (id : String)
          → id ≡ app_id
          → (app_principal lib s.device_id id s.store).role ≡ readonly =
        λ id e. rw e role in
      (
        readonly-IsRefused (session_security pal lib s app_id token)
            (heartbeat_handler pal lib r app_id) role (λ e. cc),
        readonly-IsRefused (session_security pal lib s app_id token)
            (unregister_handler pal lib r app_id) role (λ e. cc),
        readonly-IsRefused (health_security pal lib s report)
            (report_health_handler pal lib r report) (role_of report.app_id same) (λ e. cc),
        readonly-IsRefused (publish_security pal lib s message)
            (publish_data_handler pal lib r message) (role_of message.app_id same') (λ e. cc),
      )

-- Of two registrations of one name in one millisecond the later takes the session of the earlier:
-- both are given one id, and the earlier token is not accepted any more.
pub register_app_takeover :
    (pal : Platform) (lib : Library) (first later : RegisterAppRequest) (r r' : Reads)
    (s s' : AppPlatformState pal) (answer answer' : RegisterAppResponse) (now_ms : ℕ)
    → first.app_name ≡ later.app_name
    → r.id_at ≡ r'.id_at
    → hash_token lib r.token ≢ hash_token lib r'.token
    → (register_app pal lib first r s).0 ≡ ok answer
    → (register_app pal lib later r' s').0 ≡ ok answer'
    → (answer.app_id ≡ answer'.app_id)
      × (validate_session lib answer.app_id answer.session_token now_ms
            (register_app pal lib later r' s').1.store
          ≢ ok tt)
register_app_takeover pal lib first later r r' s s' answer answer' now_ms name at ne h h' =
    let (e, _) = register_app-stored pal lib r first s answer h in
    let (e', kept) = register_app-stored pal lib r' later s' answer' h' in
    let same : answer.app_id ≡ answer'.app_id = rw (e, e', name, at) refl in
    let session = session_of pal lib r' s' later in
    let id : answer.app_id ≡ session.app_id = same ∙ ap (λ a. a.app_id) e' in
    let token : answer.session_token ≡ r.token = ap (λ a. a.session_token) e in
    (
      same,
      λ valid.
          let accepted : validate_session lib session.app_id r.token now_ms
                (stored pal lib r' s' later)
              ≡ ok tt =
            rw (id, token, kept) at valid in
          let (rec, found, _, match, _) =
            (validate_session-ok_iff lib r.token now_ms session.app_id
                (stored pal lib r' s' later)).0
              accepted in
          let (rec', found', _, hashed, _, _) = stored-IsStored pal lib r' s' later in
          let one = some-injective rec rec' (sym found ∙ found') in
          ne (sym match ∙ ap (λ x. x.session_token_hash) one ∙ hashed),
    )
