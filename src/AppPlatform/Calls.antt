-- ===== src/AppPlatform/Calls.antt =====
-- src/app_platform.rs: the calls of the service, each a `secured_rpc` of its handler with the
-- principal, resource, action, target and parameters that it states; and the streams.
use cc_r_device_agent.Prelude.{
  ℕ, ◌/◌, ◌^◌, ◌-◌, String, Bool, true, Option, none, some, List, [], ◌∷◌, any, or_else, str_eq,
  if◌then◌else◌, ◌+s◌,
}
use Prim.Native.Nat.{min}
use cc_r_device_agent.Prelude.Dict.{Dict}
use cc_r_device_agent.Security.Types.{
  Resource, telemetry, configuration, app_control, Action, read, execute, write,
}
use cc_r_device_agent.Config.Manager.{ConfigChangeEvent}
use cc_r_device_agent.Lifecycle.Platform.{Platform}
use cc_r_device_agent.AppPlatform.State.{
  Field, text, texts, table, number, Library, Reads, AppAuditMeta, AppRpcSecurity, RpcEffect,
  AppPlatformState, digest_params, digest_bytes,
}
use cc_r_device_agent.AppPlatform.Session.{app_principal, pending_principal}
use cc_r_device_agent.AppPlatform.Rpc.{Outcome, secured_rpc, write_audit_exit}
use cc_r_device_agent.AppPlatform.Handlers.{
  RegisterAppRequest, RegisterAppResponse, HeartbeatResponse, HealthReport, PublishDataRequest,
  PublishDataResponse, GetConfigRequest, GetConfigResponse, register_handler, heartbeat_handler,
  report_health_handler, publish_data_handler, get_config_handler, unregister_handler,
}

module _ (pal : Platform) (lib : Library) where
  -- The security of a call with a session.
  abbrev pub with_token :
      AppPlatformState pal
      → String
      → String
      → Resource
      → Action
      → String
      → List (String × Field)
      → AppRpcSecurity
  with_token s app_id token resource action target params = record {
    audit = record {
      principal = app_principal lib s.device_id app_id s.store;
      resource = resource;
      action = action;
      target = target;
      params_digest = digest_params lib params;
    };
    session = some (app_id, token);
  }

  abbrev pub register_security : AppPlatformState pal → RegisterAppRequest → AppRpcSecurity
  register_security s req = record {
    audit = record {
      principal = pending_principal s.device_id req.app_name;
      resource = app_control;
      action = execute;
      target = "app:" +s req.app_name;
      params_digest = digest_params lib (
          ("app_name", text req.app_name)
          ∷ ("app_version", text req.app_version)
          ∷ ("capabilities", texts req.capabilities)
          ∷ ("metadata", table req.metadata)
          ∷ []);
    };
    session = none;
  }

  unfoldable pub register_app :
      RegisterAppRequest → Reads → AppPlatformState pal → Outcome pal RegisterAppResponse
  unfolding secured_rpc register_handler pending_principal digest_params
  register_app req r s =
      secured_rpc pal lib r (register_security s req) (register_handler pal lib r req) s

  -- The security of `heartbeat` and of `unregister_app`.
  abbrev pub session_security : AppPlatformState pal → String → String → AppRpcSecurity
  session_security s app_id token =
      with_token s app_id token app_control execute ("app:" +s app_id +s ":session")
        (("app_id", text app_id) ∷ [])

  unfoldable pub heartbeat :
      String → String → Reads → AppPlatformState pal → Outcome pal HeartbeatResponse
  unfolding secured_rpc heartbeat_handler app_principal digest_params
  heartbeat app_id token r s =
      secured_rpc pal lib r (session_security s app_id token) (heartbeat_handler pal lib r app_id) s

  abbrev pub health_security : AppPlatformState pal → HealthReport → AppRpcSecurity
  health_security s req =
      with_token s req.app_id req.session_token telemetry write ("app:" +s req.app_id +s ":health")
        (("app_id", text req.app_id)
          ∷ ("status", number req.status)
          ∷ ("message", text req.message)
          ∷ ("metrics", table req.metrics)
          ∷ [])

  unfoldable pub report_health : HealthReport → Reads → AppPlatformState pal → Outcome pal Bool
  unfolding secured_rpc report_health_handler app_principal digest_params
  report_health req r s =
      secured_rpc pal lib r (health_security s req) (report_health_handler pal lib r req) s

  abbrev pub publish_security : AppPlatformState pal → PublishDataRequest → AppRpcSecurity
  publish_security s req =
      with_token s req.app_id req.session_token telemetry write
        ("app:" +s req.app_id +s ":topic:" +s req.topic)
        (("app_id", text req.app_id)
          ∷ ("topic", text req.topic)
          ∷ ("payload_sha256", text (digest_bytes lib req.payload))
          ∷ ("metadata", table req.metadata)
          ∷ [])

  unfoldable pub publish_data :
      PublishDataRequest → Reads → AppPlatformState pal → Outcome pal PublishDataResponse
  unfolding secured_rpc publish_data_handler app_principal digest_params digest_bytes
  publish_data req r s =
      secured_rpc pal lib r (publish_security s req) (publish_data_handler pal lib r req) s

  abbrev pub config_security : AppPlatformState pal → String → String → List String → AppRpcSecurity
  config_security s app_id token keys =
      with_token s app_id token configuration read ("app:" +s app_id +s ":config")
        (("app_id", text app_id) ∷ ("keys", texts keys) ∷ [])

  unfoldable pub get_config :
      (String → String)
      → (String → Option String)
      → GetConfigRequest
      → Reads
      → AppPlatformState pal
      → Outcome pal GetConfigResponse
  unfolding secured_rpc get_config_handler app_principal digest_params
  get_config to_json from_json req r s =
      secured_rpc pal lib r (config_security s req.app_id req.session_token req.keys)
        (get_config_handler pal lib r to_json from_json req) s

  unfoldable pub unregister_app : String → String → Reads → AppPlatformState pal → Outcome pal Bool
  unfolding secured_rpc unregister_handler app_principal digest_params
  unregister_app app_id token r s =
      secured_rpc pal lib r (session_security s app_id token) (unregister_handler pal lib r app_id)
        s

  -- `audit_stream_closed`, which the guard of a stream calls when the stream is dropped.
  unfoldable pub audit_stream_closed :
      AppAuditMeta → String → ℕ → AppPlatformState pal → List RpcEffect
  unfolding write_audit_exit
  audit_stream_closed meta trace_id at s =
      if s.audit_writer then write_audit_exit meta trace_id at "stream_closed" ∷ [] else []

pub record ConfigUpdate : Type 0 where
  pub key : String
  pub value : String
  pub version : ℕ
  pub change_type : String

abbrev change_type_of : Option String → String
change_type_of (some _) = "updated"
change_type_of none = "deleted"

-- The keys or topics that a stream was asked for, all where there are none.
abbrev pub is_wanted : List String → String → Bool
is_wanted [] name = true
is_wanted (k ∷ ks) name = any (λ wanted. str_eq wanted name) (k ∷ ks)

-- The updates that the task of `watch_config` sends for the changes that its watcher gives it.
unfoldable pub config_updates : List String → List ConfigChangeEvent → List ConfigUpdate
config_updates keys [] = []
config_updates keys (ev ∷ evs) =
    let rest = config_updates keys evs in
    let update : ConfigUpdate = record {
      key = ev.key;
      value = or_else ev.value "";
      version = min ev.version (2 ^ 63 - 1);
      change_type = change_type_of ev.value;
    } in
    if is_wanted keys ev.key then update ∷ rest else rest

pub record DataMessage : Type 0 where
  pub topic : String
  pub payload : List ℕ
  pub timestamp : ℕ
  pub metadata : Dict String String

-- The messages that the task of `subscribe_data` sends, from topics, payloads and times in
-- milliseconds.
unfoldable pub data_messages : List String → List (String × List ℕ × ℕ) → List DataMessage
data_messages topics [] = []
data_messages topics ((topic, payload, now_ms) ∷ received) =
    let rest = data_messages topics received in
    let message : DataMessage = record {
      topic = topic;
      payload = payload;
      timestamp = now_ms / 1000;
      metadata = [];
    } in
    if is_wanted topics topic then message ∷ rest else rest
