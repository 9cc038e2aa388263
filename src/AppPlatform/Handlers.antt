-- ===== src/AppPlatform/Handlers.antt =====
-- src/app_platform.rs: what the handlers of the calls do behind `secured_rpc`.
use cc_r_device_agent.Prelude.{
  ℕ, String, Bool, true, false, Option, none, some, List, [], ◌∷◌, any, or_else, str_eq, string_eq,
  if◌then◌else◌, Result, ok, err, ◌+s◌, show_ℕ,
}
use mathlib.Core.Option
use cc_r_device_agent.Prelude.Dict.{Dict}
use cc_r_device_agent.Prelude.Sort.{keep}
use cc_r_device_agent.Store.Sessions.{
  AppSessionRecord, AppManifestRecord, AppHealthReportRecord, AppTables, upsert_app_session,
  upsert_app_manifest, touch_app_session, insert_health_report, revoke_app_session,
}
use cc_r_device_agent.Chain.Interceptor.{invalid_argument, internal}
use cc_r_device_agent.Config.Manager.{app}
use cc_r_device_agent.Config.Snapshot.{snapshot}
use cc_r_device_agent.Health.Evaluator.{
  HealthStatus, healthy, degraded, unhealthy, unknown, from_i32, report,
}
use cc_r_device_agent.Router.{publish_uplink}
use cc_r_device_agent.Lifecycle.Platform.{Platform}
use cc_r_device_agent.Lifecycle.Apps.{
  LifecycleError, executable_not_found, unknown_app, app_is_uninstalled, not_installed,
  start_failed, limits_failed, terminate_failed,
}
use cc_r_device_agent.Lifecycle.Task.{State, Answer, done, register, stop, handle}
use cc_r_device_agent.AppPlatform.State.{
  Status, Field, text, texts, table, number, Library, Reads, AppPlatformState,
}
use cc_r_device_agent.AppPlatform.Session.{hash_token, generate_app_id, expiry, in_seconds}
use cc_r_device_agent.AppPlatform.Rpc.{Handler}

pub record RegisterAppRequest : Type 0 where
  pub app_name : String
  pub app_version : String
  pub capabilities : List String
  pub metadata : Dict String String

pub record RegisterAppResponse : Type 0 where
  pub app_id : String
  pub session_token : String
  pub session_expires_at : ℕ
  pub device_id : String

pub record HeartbeatResponse : Type 0 where
  pub session_valid : Bool
  pub session_expires_at : ℕ

pub record HealthReport : Type 0 where
  pub app_id : String
  pub session_token : String
  pub status : ℕ
  pub message : String
  pub metrics : Dict String String

pub record PublishDataRequest : Type 0 where
  pub app_id : String
  pub session_token : String
  pub topic : String
  pub payload : List ℕ
  pub metadata : Dict String String

pub record PublishDataResponse : Type 0 where
  pub accepted : Bool
  pub message_id : String

pub record GetConfigRequest : Type 0 where
  pub app_id : String
  pub session_token : String
  pub keys : List String

pub record GetConfigResponse : Type 0 where
  pub config : Dict String String
  pub version : ℕ

-- The texts of the errors, less the id or the path in those of the first two.
abbrev lifecycle_text : LifecycleError → String
lifecycle_text executable_not_found = "executable not found"
lifecycle_text unknown_app = "unknown app"
lifecycle_text app_is_uninstalled = "app is uninstalled"
lifecycle_text not_installed = "app is registered but not installed"
lifecycle_text (start_failed _) = "start app process through PAL"
lifecycle_text (limits_failed _) = "apply app resource limits through PAL"
lifecycle_text (terminate_failed _) = "stop app process through PAL"

-- `serde_json::to_string` of a status, without its quotes.
unfoldable pub status_text : HealthStatus → String
status_text healthy = "healthy"
status_text degraded = "degraded"
status_text unhealthy = "unhealthy"
status_text unknown = "unknown"

module _ (pal : Platform) (lib : Library) (r : Reads) where
  abbrev pub App : Type 0
  App = AppPlatformState pal

  abbrev pub session_of : App → RegisterAppRequest → AppSessionRecord
  session_of s req = record {
    app_id = generate_app_id req.app_name r.id_at;
    app_name = req.app_name;
    app_version = req.app_version;
    session_token_hash = hash_token lib r.token;
    capabilities_json = or_else (lib.list_to_json req.capabilities) "[]";
    metadata_json = or_else (lib.map_to_json req.metadata) "{}";
    device_id = s.device_id;
    registered_at_unix_ms = r.handled_at;
    expires_at_unix_ms = expiry r.handled_at s.session_duration;
    last_heartbeat_unix_ms = r.handled_at;
    revoked = false;
  }

  abbrev manifest_fields : App → RegisterAppRequest → List (String × Field)
  manifest_fields s req =
      ("kind", text "registry")
      ∷ ("app_id", text (generate_app_id req.app_name r.id_at))
      ∷ ("app_name", text req.app_name)
      ∷ ("version", text req.app_version)
      ∷ ("capabilities", texts req.capabilities)
      ∷ ("metadata", table req.metadata)
      ∷ ("device_id", text s.device_id)
      ∷ ("registered_at_unix_ms", number r.handled_at)
      ∷ []

  abbrev pub manifest_of : App → RegisterAppRequest → AppManifestRecord
  manifest_of s req = record {
    app_id = generate_app_id req.app_name r.id_at;
    version = req.app_version;
    manifest_json = or_else (lib.to_json (manifest_fields s req)) "";
  }

  abbrev pub registration : App → RegisterAppRequest → RegisterAppResponse
  registration s req = record {
    app_id = generate_app_id req.app_name r.id_at;
    session_token = r.token;
    session_expires_at = in_seconds (expiry r.handled_at s.session_duration);
    device_id = s.device_id;
  }

  -- The answer of the lifecycle manager to `register`.
  abbrev pub after_register :
      RegisterAppResponse → App → State pal × Answer → Result Status RegisterAppResponse × App
  after_register response s (l, done (err e)) = (
    err (record { code = internal; message = lifecycle_text e }),
    record s { lifecycle = some l },
  )
  after_register response s (l, _) = (ok response, record s { lifecycle = some l })

  -- The registration with the lifecycle manager, where there is one.
  unfoldable pub with_manager :
      RegisterAppRequest
      → RegisterAppResponse
      → App
      → Option (State pal)
      → Result Status RegisterAppResponse × App
  unfolding handle
  with_manager req response s none = (ok response, s)
  with_manager req response s (some l) =
      after_register response s
        (handle pal (register response.app_id req.app_name req.app_version) l)

  unfoldable pub register_handler : RegisterAppRequest → Handler pal RegisterAppResponse
  unfolding generate_app_id hash_token upsert_app_session upsert_app_manifest with_manager
  register_handler req s =
      let stored = record s {
        store =
            upsert_app_manifest (manifest_of s req) (upsert_app_session (session_of s req) s.store);
      } in
      if str_eq req.app_name ""
      then (err (record { code = invalid_argument; message = "app_name is required" }), s)
      else with_manager req (registration s req) stored s.lifecycle

  -- Whether a row was touched is not looked at.
  unfoldable pub heartbeat_handler : String → Handler pal HeartbeatResponse
  unfolding touch_app_session
  heartbeat_handler app_id s =
      let new_exp = expiry r.handled_at s.session_duration in
      (
        ok (record { session_valid = true; session_expires_at = in_seconds new_exp }),
        record s { store = (touch_app_session app_id new_exp r.handled_at s.store).0 },
      )

  abbrev pub health_record : HealthReport → AppHealthReportRecord
  health_record req = record {
    app_id = req.app_id;
    status = status_text (from_i32 req.status);
    message = req.message;
    metrics_json = or_else (lib.map_to_json req.metrics) "{}";
    reported_at_unix_ms = r.handled_at;
  }

  -- The answer is `HealthResponse { accepted }`; the evaluator is told only of what was stored.
  unfoldable pub after_insert :
      HealthReport → App → AppTables × Result String (Unit {0}) → Result Status Bool × App
  unfolding report from_i32
  after_insert req s (t, err e) =
      (err (record { code = internal; message = e }), record s { store = t })
  after_insert req s (t, ok _) = (
    ok true,
    record s {
      store = t;
      health_evaluator =
          Option.map (λ h. (report req.app_id (from_i32 req.status) r.instant h).0)
            s.health_evaluator;
    },
  )

  unfoldable pub report_health_handler : HealthReport → Handler pal Bool
  unfolding insert_health_report status_text from_i32 after_insert
  report_health_handler req s =
      after_insert req s (insert_health_report (health_record req) s.store)

  abbrev pub published : PublishDataResponse
  published = record { accepted = true; message_id = "msg_" +s show_ℕ r.handled_at }

  -- The state stays as it is.
  unfoldable pub publish_data_handler : PublishDataRequest → Handler pal PublishDataResponse
  unfolding publish_uplink
  publish_data_handler req s = (
    elim s.data_router [
      | none ↦ ok published
      | some router ↦ elim (publish_uplink router req.app_id req.topic req.payload r.publish).0 [
        | err e ↦ err (record { code = internal; message = e })
        | ok _ ↦ ok published
      ]
    ],
    s,
  )

  -- `serde_json` at a text, for the configuration's store.
  module _ (to_json : String → String) (from_json : String → Option String) where
    unfoldable pub get_config_handler : GetConfigRequest → Handler pal GetConfigResponse
    unfolding snapshot
    get_config_handler req s = (
      elim s.config_manager [
        | none ↦ ok (record { config = []; version = 0 })
        | some m ↦
            let all = snapshot to_json from_json (app req.app_id) m in
            let filtered : Dict String String = elim req.keys [
              | [] ↦ all
              | k ∷ ks ↦ keep (λ e. any (λ wanted. str_eq wanted e.0) (k ∷ ks)) all
            ] in
            ok (record { config = filtered; version = m.inner.global_version })
      ],
      s,
    )

  -- A failure to stop is only logged. The answer is `UnregisterAppResponse { success }`.
  unfoldable pub unregister_handler : String → Handler pal Bool
  unfolding revoke_app_session handle
  unregister_handler app_id s = (
    ok true,
    record s {
      store = (revoke_app_session app_id s.store).0;
      lifecycle = Option.map (λ l. (handle pal (stop app_id) l).0) s.lifecycle;
    },
  )
