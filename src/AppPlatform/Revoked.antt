-- ===== src/AppPlatform/Revoked.antt =====
-- The service as a transition system of its calls: a session that was ended stays ended.
use cc_r_device_agent.Prelude.{
  ℕ, String, ◌≡◌, refl, sym, ◌∙◌, inl, inr, Bool, true, false, not, Option, none, some, List, [],
  ◌∷◌, arith, Bool-cases, Result, ok, err, str_eq, string_eq, all, is_some,
}
use mathlib.Core.Path.{subst}
use cc_r_device_agent.Prelude.Dict
use cc_r_device_agent.Chain.Interceptor.{unauthenticated}
use cc_r_device_agent.Store.Sessions.{
  AppTables, AppHealthReportRecord, load_app_session, touch_app_session, revoke_app_session,
  insert_health_report, upsert_app_manifest,
}
use cc_r_device_agent.Lifecycle.Platform.{Platform}
use cc_r_device_agent.Lifecycle.Task.{
  State, Answer, done, state_is, app_is, apps_are, register, handle,
}
use cc_r_device_agent.AppPlatform.State.{Library, Status, Reads, AppPlatformState}
use cc_r_device_agent.AppPlatform.Session.{generate_app_id, validate_session}
use cc_r_device_agent.AppPlatform.Tokens.{
  IsGone, IsGone-refused, upsert_app_session-other, revoke_app_session-IsGone, update_live-IsGone,
}
use cc_r_device_agent.AppPlatform.Handlers.{
  RegisterAppRequest, RegisterAppResponse, HealthReport, PublishDataRequest, GetConfigRequest,
  session_of, registration, after_register, with_manager, health_record, after_insert,
  register_handler, heartbeat_handler, report_health_handler, publish_data_handler,
  get_config_handler, unregister_handler,
}
use cc_r_device_agent.AppPlatform.Lifetime.{stored}
use cc_r_device_agent.AppPlatform.Guard.{secured_rpc-ok, secured_rpc-keeps}
use cc_r_device_agent.AppPlatform.Calls.{
  register_security, session_security, health_security, publish_security, config_security,
  register_app, heartbeat, report_health, publish_data, get_config, unregister_app,
}

pub data Call : Type 0 where
  registers : RegisterAppRequest → Reads → Call
  beats unregisters : String → String → Reads → Call
  reports : HealthReport → Reads → Call
  publishes : PublishDataRequest → Reads → Call
  gets : GetConfigRequest → Reads → Call

-- The call is no registration under an id.
abbrev pub spares : String → Call → Bool
spares app_id (registers req r) = not (str_eq (generate_app_id req.app_name r.id_at) app_id)
spares app_id _ = true

module _ (pal : Platform) (lib : Library) (to_json : String → String)
    (from_json : String → Option String) where
  unfoldable pub step : Call → AppPlatformState pal → AppPlatformState pal
  unfolding register_app heartbeat report_health publish_data get_config unregister_app
  step (registers req r) s = (register_app pal lib req r s).1
  step (beats app_id token r) s = (heartbeat pal lib app_id token r s).1
  step (unregisters app_id token r) s = (unregister_app pal lib app_id token r s).1
  step (reports req r) s = (report_health pal lib req r s).1
  step (publishes req r) s = (publish_data pal lib req r s).1
  step (gets req r) s = (get_config pal lib to_json from_json req r s).1

  unfoldable pub run : List Call → AppPlatformState pal → AppPlatformState pal
  unfolding step
  run [] s = s
  run (c ∷ cs) s = run cs (step c s)

  module _ (r : Reads) where
    after_register-store :
        (response : RegisterAppResponse) (s : AppPlatformState pal) (a : State pal × Answer)
        → (after_register pal lib r response s a).1.store ≡ s.store
    after_register-store response s (l, done (ok u)) = refl
    after_register-store response s (l, done (err e)) = refl
    after_register-store response s (l, state_is o) = refl
    after_register-store response s (l, app_is o) = refl
    after_register-store response s (l, apps_are o) = refl

    with_manager-store :
        (req : RegisterAppRequest) (response : RegisterAppResponse) (s : AppPlatformState pal)
        (l : Option (State pal))
        → (with_manager pal lib r req response s l).1.store ≡ s.store
    unfolding with_manager
    with_manager-store req response s none = refl
    with_manager-store req response s (some l) =
        after_register-store response s
          (handle pal (register response.app_id req.app_name req.app_version) l)

    module _ (app_id : String) (s : AppPlatformState pal) (gone : IsGone app_id s.store) where
      stored-IsGone :
          (req : RegisterAppRequest)
          → str_eq (generate_app_id req.app_name r.id_at) app_id ≡ false
          → IsGone app_id (stored pal lib r s req)
      unfolding load_app_session upsert_app_manifest
      stored-IsGone req ne rec found =
          gone rec
            (sym (upsert_app_session-other (session_of pal lib r s req) s.store app_id ne) ∙ found)

      register_handler-IsGone :
          (req : RegisterAppRequest)
          → spares app_id (registers req r) ≡ true
          → IsGone app_id (register_handler pal lib r req s).1.store
      unfolding register_handler upsert_app_manifest load_app_session
      register_handler-IsGone req other = elim (Bool-cases (str_eq req.app_name "")) [
        | inl e ↦ rw (e, register_handler) gone
        | inr e ↦
            rw (e, register_handler)
              (subst (IsGone app_id)
                (sym (
                  with_manager-store req (registration pal lib r s req)
                    (record s { store = stored pal lib r s req }) s.lifecycle))
                (stored-IsGone req (ground (arith, other))))
      ]

      heartbeat_handler-IsGone :
          (other : String) → IsGone app_id (heartbeat_handler pal lib r other s).1.store
      unfolding heartbeat_handler touch_app_session
      heartbeat_handler-IsGone other = update_live-IsGone other app_id _ s.store gone

      unregister_handler-IsGone :
          (other : String) → IsGone app_id (unregister_handler pal lib r other s).1.store
      unfolding unregister_handler revoke_app_session
      unregister_handler-IsGone other = update_live-IsGone other app_id _ s.store gone

      after_insert-IsGone :
          (req : HealthReport) (a : AppTables × Result String (Unit {0}))
          → IsGone app_id a.0
          → IsGone app_id (after_insert pal lib r req s a).1.store
      unfolding after_insert
      after_insert-IsGone req (t, ok u) h = h
      after_insert-IsGone req (t, err e) h = h

      insert-IsGone :
          (rec : AppHealthReportRecord) → IsGone app_id (insert_health_report rec s.store).0
      unfolding insert_health_report load_app_session
      insert-IsGone rec = elim (Bool-cases (is_some (Dict.get rec.app_id s.store.sessions))) [
        | inl e ↦ rw (e, insert_health_report) gone
        | inr e ↦ rw (e, insert_health_report) gone
      ]

      report_health_handler-IsGone :
          (req : HealthReport) → IsGone app_id (report_health_handler pal lib r req s).1.store
      unfolding report_health_handler
      report_health_handler-IsGone req =
          after_insert-IsGone req (insert_health_report (health_record pal lib r req) s.store)
            (insert-IsGone (health_record pal lib r req))

  abbrev Gone : String → AppPlatformState pal → Type 0
  Gone app_id s = IsGone app_id s.store

  step-IsGone :
      (app_id : String) (c : Call) (s : AppPlatformState pal)
      → Gone app_id s
      → spares app_id c ≡ true
      → Gone app_id (step c s)
  unfolding step register_app heartbeat report_health publish_data get_config unregister_app
      publish_data_handler get_config_handler
  step-IsGone app_id (registers req r) s gone other =
      secured_rpc-keeps pal lib r (Gone app_id) (λ s' sc p. p) (register_security pal lib s req)
        (register_handler pal lib r req) (λ s' p. register_handler-IsGone r app_id s' p req other) s
        gone
  step-IsGone app_id (beats id token r) s gone other =
      secured_rpc-keeps pal lib r (Gone app_id) (λ s' sc p. p) (session_security pal lib s id token)
        (heartbeat_handler pal lib r id) (λ s' p. heartbeat_handler-IsGone r app_id s' p id) s gone
  step-IsGone app_id (unregisters id token r) s gone other =
      secured_rpc-keeps pal lib r (Gone app_id) (λ s' sc p. p) (session_security pal lib s id token)
        (unregister_handler pal lib r id) (λ s' p. unregister_handler-IsGone r app_id s' p id) s
        gone
  step-IsGone app_id (reports req r) s gone other =
      secured_rpc-keeps pal lib r (Gone app_id) (λ s' sc p. p) (health_security pal lib s req)
        (report_health_handler pal lib r req)
        (λ s' p. report_health_handler-IsGone r app_id s' p req) s gone
  step-IsGone app_id (publishes req r) s gone other =
      secured_rpc-keeps pal lib r (Gone app_id) (λ s' sc p. p) (publish_security pal lib s req)
        (publish_data_handler pal lib r req) (λ s' p. p) s gone
  step-IsGone app_id (gets req r) s gone other =
      secured_rpc-keeps pal lib r (Gone app_id) (λ s' sc p. p)
        (config_security pal lib s req.app_id req.session_token req.keys)
        (get_config_handler pal lib r to_json from_json req) (λ s' p. p) s gone

  run-IsGone :
      (app_id : String) (cs : List Call) (s : AppPlatformState pal)
      → Gone app_id s
      → all (spares app_id) cs ≡ true
      → Gone app_id (run cs s)
  unfolding run
  run-IsGone app_id [] s gone h = gone
  run-IsGone app_id (c ∷ cs) s gone h =
      run-IsGone app_id cs (step c s) (step-IsGone app_id c s gone (ground arith)) (ground arith)

  -- Once an application has unregistered, no token is accepted under its id, whatever calls follow,
  -- unless one of them registers an application under the same id.
  pub unregister_app_final :
      (app_id token : String) (r : Reads) (s : AppPlatformState pal) (success : Bool)
      (cs : List Call) (other : String) (now_ms : ℕ)
      → (unregister_app pal lib app_id token r s).0 ≡ ok success
      → all (spares app_id) cs ≡ true
      → (status : Status) × (validate_session lib app_id other now_ms
            (run cs (unregister_app pal lib app_id token r s).1).store
          ≡ err status)
        × (status.code ≡ unauthenticated)
  unfolding unregister_app unregister_handler
  unregister_app_final app_id token r s success cs other now_ms answered spared =
      let (sc', (_, state)) =
        secured_rpc-ok pal lib r (session_security pal lib s app_id token)
          (unregister_handler pal lib r app_id) s success answered in
      let ended : Gone app_id (unregister_app pal lib app_id token r s).1 =
        subst (Gone app_id) (sym state) (revoke_app_session-IsGone app_id s.store) in
      IsGone-refused lib app_id other now_ms _ (run-IsGone app_id cs _ ended spared)
