-- ===== src/AppPlatform/State.antt =====
-- src/app_platform.rs: the state of the service, its answers, what a call reads from outside, and
-- the libraries that it uses (ring's SHA-256, serde_json).
use cc_r_device_agent.Prelude.{
  ℕ, ◌*◌, String, Bool, true, false, Option, none, some, List, Result, or_else,
}
use cc_r_device_agent.Prelude.Dict.{Dict}
use cc_r_device_agent.Security.Types.{Principal, Resource, Action}
use cc_r_device_agent.Security.Center.{SecurityCenter}
use cc_r_device_agent.Security.Audit.{AuditEvent, hex_encode}
use cc_r_device_agent.Store.Sessions.{AppTables}
use cc_r_device_agent.Chain.Interceptor.{Code, Effect}
use cc_r_device_agent.Config.Manager.{ConfigManager}
use cc_r_device_agent.Health.Evaluator
use cc_r_device_agent.Router.{DataRouter}
use cc_r_device_agent.Lifecycle.Platform.{Platform}
use cc_r_device_agent.Lifecycle.Task.{State}

pub record Status : Type 0 where
  pub code : Code
  pub message : String

-- A value of a JSON object that `json!` builds.
pub data Field : Type 0 where
  text : String → Field
  texts : List String → Field
  table : Dict String String → Field
  number : ℕ → Field

-- `to_json` is `to_vec` and `to_string` of an object, `none` its error; so are the next two of
-- lists and maps. `map_of_json` is `from_str` at a map.
pub record Library : Type 0 where
  pub sha256 : String → List ℕ
  pub sha256_bytes : List ℕ → List ℕ
  pub to_json : List (String × Field) → Option String
  pub list_to_json : List String → Option String
  pub map_to_json : Dict String String → Option String
  pub map_of_json : String → Option (Dict String String)

unfoldable pub digest_params : Library → List (String × Field) → String
digest_params lib value = hex_encode (lib.sha256 (or_else (lib.to_json value) ""))

unfoldable pub digest_bytes : Library → List ℕ → String
digest_bytes lib bytes = hex_encode (lib.sha256_bytes bytes)

-- What a call reads from outside, in the order in which it reads it: the clock in nanoseconds, or
-- in milliseconds where it calls `now_unix_ms`; random texts; the answers of the audit sink, of the
-- lock of the security center and of the publisher.
pub record Reads : Type 0 where
  pub now : ℕ
  pub trace_id : String
  pub checked_at : ℕ
  pub lock_ok : Bool
  pub sink : AuditEvent → Result String (Unit {0})
  pub id_at : ℕ
  pub token : String
  pub handled_at : ℕ
  pub instant : ℕ
  pub publish : String → List ℕ → Result String (Unit {0})
  pub finished : ℕ

pub record AppAuditMeta : Type 0 where
  pub principal : Principal
  pub resource : Resource
  pub action : Action
  pub target : String
  pub params_digest : String

-- The session is that of the application id and the token.
pub record AppRpcSecurity : Type 0 where
  pub audit : AppAuditMeta
  pub session : Option (String × String)

-- What a call does besides: audit events, and the run of its handler.
pub data RpcEffect : Type 0 where
  audited : Effect → RpcEffect
  ran : RpcEffect

module _ (pal : Platform) where
  -- `session_duration` is in milliseconds. The audit writer has no state of its own, and
  -- the publisher is read from outside.
  pub record AppPlatformState : Type 0 where
    pub device_id : String
    pub store : AppTables
    pub session_duration : ℕ
    pub security_center : Option SecurityCenter
    pub audit_writer : Bool
    pub data_router : Option DataRouter
    pub config_manager : Option ConfigManager
    pub health_evaluator : Option Evaluator.Apps
    pub lifecycle : Option (State pal)

  -- `new`: an hour, and nothing configured.
  unfoldable pub new : String → AppTables → AppPlatformState
  new device_id store = record {
    device_id = device_id;
    store = store;
    session_duration = 3600 * 1000;
    security_center = none;
    audit_writer = false;
    data_router = none;
    config_manager = none;
    health_evaluator = none;
    lifecycle = none;
  }

  unfoldable pub with_session_duration : ℕ → AppPlatformState → AppPlatformState
  with_session_duration d s = record s { session_duration = d }

  unfoldable pub with_security : SecurityCenter → AppPlatformState → AppPlatformState
  with_security sc s = record s { security_center = some sc; audit_writer = true }

  unfoldable pub with_data_router : DataRouter → AppPlatformState → AppPlatformState
  with_data_router r s = record s { data_router = some r }

  unfoldable pub with_config_manager : ConfigManager → AppPlatformState → AppPlatformState
  with_config_manager m s = record s { config_manager = some m }

  unfoldable pub with_health_evaluator : Evaluator.Apps → AppPlatformState → AppPlatformState
  with_health_evaluator h s = record s { health_evaluator = some h }

  unfoldable pub with_lifecycle : State pal → AppPlatformState → AppPlatformState
  with_lifecycle l s = record s { lifecycle = some l }
