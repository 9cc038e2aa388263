-- ===== src/Tests/AppPlatform.antt =====
-- src/app_platform.rs at concrete inputs: an application that registers, and one that is read-only.
use Prim.Native.Char.{code}
use cc_r_device_agent.Prelude.{
  ◌<◌, ◌^◌, arith, ℕ, ◌≤◌, ◌+◌, String, ◌≡◌, ◌≢◌, ◌↔◌, ◌⊎◌, refl, true, false, Option, none, some,
  List, [], ◌∷◌, ok, err, str_eq, if◌then◌else◌, show_ℕ, string_eq, eq_iff,
}
use cc_r_device_agent.Prelude.Dict
use cc_r_device_agent.Prelude.Dict.{Dict}
use cc_r_device_agent.Security.Rbac.{default_policy, authorize}
use cc_r_device_agent.Security.Replay.{check}
use cc_r_device_agent.Security.Center.{SecurityCenter, authorize_context}
use cc_r_device_agent.Security.Audit.{hex_encode}
use cc_r_device_agent.Store.Sessions.{AppSessionRecord, load_app_session}
use cc_r_device_agent.Chain.Interceptor.{unauthenticated, write_entry}
use cc_r_device_agent.Lifecycle.Platform.{Platform}
use cc_r_device_agent.AppPlatform.State.{Library, Status, Reads, AppPlatformState}
use cc_r_device_agent.AppPlatform.Session.{
  in_seconds, expiry, role_named, app_principal, app_role, generate_app_id, hash_token,
  check_record, validate_session,
}
use cc_r_device_agent.AppPlatform.Rpc.{
  secured_rpc, with_session, authorized, decided, with_entry, entered, run_handler,
}
use cc_r_device_agent.AppPlatform.Tokens.{Accepts, validate_session-ok_iff}
use cc_r_device_agent.AppPlatform.Handlers.{
  RegisterAppRequest, RegisterAppResponse, HealthReport, PublishDataRequest, register_handler,
  with_manager, unregister_handler, heartbeat_handler,
}
use cc_r_device_agent.AppPlatform.Calls.{
  register_app, heartbeat, report_health, publish_data, unregister_app, session_security,
}
use cc_r_device_agent.AppPlatform.Guard.{IsServed, IsRefused, secured_rpc-cases}
use cc_r_device_agent.AppPlatform.Lifetime.{register_app-validates, register_app-role}
use cc_r_device_agent.AppPlatform.Revoked.{beats, registers, run, unregister_app_final}
use cc_r_device_agent.AppPlatform.Roles.{readonly_calls, register_app_takeover}

-- A platform on which no process starts.
abbrev still : Platform
still = record {
  World = Unit;
  exists = λ w path. false;
  start = λ s w. (err "no process", w);
  apply_to_pid = λ p l w. (err "no process", w);
  terminate = λ p w. (err "no process", w);
  remove_dir_all = λ d w. w;
  now = λ w. 0;
  live = λ w p. false;
  start_ok = λ s w p h. absurd (cc);
  start_err = λ s w e h q. refl;
  apply_live = λ p l w q. refl;
  terminate_ok = λ p w h. absurd (cc);
  terminate_err = λ p w e h q. refl;
  remove_live = λ d w q. refl;
}

abbrev codes : String → List ℕ
codes String.[] = []
codes (String.◌∷◌ c s) = code c ∷ codes s

abbrev role_json : Dict String String → Option String
role_json [] = some ""
role_json ((key, value) ∷ rest) = some value

abbrev json_role : String → Option (Dict String String)
json_role s = if str_eq s "" then some [] else some (("role", s) ∷ [])

abbrev lib : Library
lib = record {
  sha256 = codes;
  sha256_bytes = λ bytes. bytes;
  to_json = λ fields. some "{}";
  list_to_json = λ texts. some "[]";
  map_to_json = role_json;
  map_of_json = json_role;
}

abbrev reads : String → String → Reads
reads trace_id token = record {
  now = 1_000_000_000;
  trace_id = trace_id;
  checked_at = 1000;
  lock_ok = true;
  sink = λ e. ok tt;
  id_at = 1000;
  token = token;
  handled_at = 1001;
  instant = 5;
  publish = λ topic payload. ok tt;
  finished = 1_002_000_000;
}

abbrev center : SecurityCenter
center = record {
  policy = default_policy;
  replay_guard = record { allowed_skew = 300_000_000_000; seen = [] };
}

abbrev fresh : AppPlatformState still
fresh = record {
  device_id = "dev";
  store = record { sessions = []; manifests = []; reports = [] };
  session_duration = 3_600_000;
  security_center = some center;
  audit_writer = true;
  data_router = none;
  config_manager = none;
  health_evaluator = none;
  lifecycle = none;
}

abbrev request : Dict String String → RegisterAppRequest
request metadata = record {
  app_name = "app";
  app_version = "1.0";
  capabilities = [];
  metadata = metadata;
}

abbrev answer : String → RegisterAppResponse
answer token = record {
  app_id = "app_1000";
  session_token = token;
  session_expires_at = 3601;
  device_id = "dev";
}

registered :
    (register_app still lib (request []) (reads "t1" "secret") fresh).0 ≡ ok (answer "secret")
unfolding register_app secured_rpc with_session authorized decided with_entry entered run_handler
    register_handler with_manager authorize_context authorize default_policy check Dict.get
    Dict.insert Dict.retain write_entry generate_app_id show_ℕ in_seconds expiry
registered = refl

register_app-validates_example :
    (validate_session lib "app_1000" "secret" 2000
        (register_app still lib (request []) (reads "t1" "secret") fresh).1.store
      ≡ ok tt)
    ↔ ((2000 ≤ 1001 + 3_600_000) × (1001 + 3_600_000 < 2 ^ 63))
register_app-validates_example =
    register_app-validates still lib (reads "t1" "secret") (request []) fresh (answer "secret") 2000
      (omega arith) registered

abbrev as_admin : Dict String String
as_admin = ("role", "admin") ∷ []

registered_admin :
    (register_app still lib (request as_admin) (reads "t1" "secret") fresh).0 ≡ ok (answer "secret")
unfolding register_app secured_rpc with_session authorized decided with_entry entered run_handler
    register_handler with_manager authorize_context authorize default_policy check Dict.get
    Dict.insert Dict.retain write_entry generate_app_id show_ℕ in_seconds expiry
registered_admin = refl

register_app-role_example :
    (app_principal lib "dev" "app_1000"
      (register_app still lib (request as_admin) (reads "t1" "secret") fresh).1.store).role
    ≡ role_named (Dict.get "role" as_admin)
register_app-role_example =
    register_app-role still lib (reads "t1" "secret") (request as_admin) fresh (answer "secret")
      "admin" refl refl registered_admin

registered_again :
    (register_app still lib (request []) (reads "t2" "other") fresh).0 ≡ ok (answer "other")
unfolding register_app secured_rpc with_session authorized decided with_entry entered run_handler
    register_handler with_manager authorize_context authorize default_policy check Dict.get
    Dict.insert Dict.retain write_entry generate_app_id show_ℕ in_seconds expiry
registered_again = refl

hashes_differ : hash_token lib "secret" ≢ hash_token lib "other"
unfolding hash_token hex_encode
hashes_differ e =
    let bad : false ≡ true = (eq_iff (hash_token lib "secret") (hash_token lib "other")).1 e in cc

register_app_takeover_example :
    (◌≡◌ {A = String} "app_1000" "app_1000")
    × (validate_session lib "app_1000" "secret" 2000
          (register_app still lib (request []) (reads "t2" "other") fresh).1.store
        ≢ ok tt)
register_app_takeover_example =
    register_app_takeover still lib (request []) (request []) (reads "t1" "secret")
      (reads "t2" "other") fresh fresh (answer "secret") (answer "other") 2000 refl refl
      hashes_differ registered registered_again

abbrev session : String → AppSessionRecord
session metadata_json = record {
  app_id = "a";
  app_name = "app";
  app_version = "1.0";
  session_token_hash = "736563726574";
  capabilities_json = "[]";
  metadata_json = metadata_json;
  device_id = "dev";
  registered_at_unix_ms = 0;
  expires_at_unix_ms = 5000;
  last_heartbeat_unix_ms = 0;
  revoked = false;
}

abbrev holding : String → AppPlatformState still
holding metadata_json = record fresh {
  store = record { sessions = ("a", session metadata_json) ∷ []; manifests = []; reports = [] };
}

session_valid : validate_session lib "a" "secret" 1000 (holding "").store ≡ ok tt
unfolding validate_session check_record hash_token hex_encode load_app_session Dict.get
session_valid = refl

validate_session-ok_iff_example :
    (validate_session lib "a" "secret" 1000 (holding "").store ≡ ok tt)
    ↔ Accepts lib "secret" 1000 (load_app_session "a" (holding "").store)
validate_session-ok_iff_example = validate_session-ok_iff lib "secret" 1000 "a" (holding "").store

unregistered : (unregister_app still lib "a" "secret" (reads "t3" "") (holding "")).0 ≡ ok true
unfolding unregister_app secured_rpc with_session authorized decided with_entry entered run_handler
    unregister_handler app_principal app_role authorize_context authorize default_policy check
    Dict.get Dict.insert Dict.retain write_entry validate_session check_record hash_token hex_encode
    load_app_session
unregistered = refl

unregister_app_final_example :
    (status : Status) × (validate_session lib "a" "secret" 2000
        (run still lib
          (λ s. s)
          some
          (beats "a" "secret" (reads "t4" "") ∷ registers (request []) (reads "t5" "x") ∷ [])
          (unregister_app still lib "a" "secret" (reads "t3" "") (holding "")).1).store
      ≡ err status)
    × (status.code ≡ unauthenticated)
unregister_app_final_example =
    unregister_app_final still lib (λ s. s) some "a" "secret" (reads "t3" "") (holding "") true
      (beats "a" "secret" (reads "t4" "") ∷ registers (request []) (reads "t5" "x") ∷ []) "secret"
      2000 unregistered (unfold generate_app_id show_ℕ in refl)

abbrev report : HealthReport
report = record { app_id = "a"; session_token = "secret"; status = 1; message = ""; metrics = [] }

abbrev message : PublishDataRequest
message = record {
  app_id = "a";
  session_token = "secret";
  topic = "metrics";
  payload = 1 ∷ [];
  metadata = [];
}

readonly_calls_example :
    IsRefused still lib
      (reads "t6" "")
      (holding "readonly")
      (heartbeat still lib "a" "secret" (reads "t6" "") (holding "readonly"))
    × IsRefused still lib
        (reads "t6" "")
        (holding "readonly")
        (unregister_app still lib "a" "secret" (reads "t6" "") (holding "readonly"))
    × IsRefused still lib
        (reads "t6" "")
        (holding "readonly")
        (report_health still lib report (reads "t6" "") (holding "readonly"))
    × IsRefused still lib
        (reads "t6" "")
        (holding "readonly")
        (publish_data still lib message (reads "t6" "") (holding "readonly"))
readonly_calls_example =
    readonly_calls still lib (reads "t6" "") (holding "readonly") center refl refl "a" "secret"
      report message (unfold app_principal app_role load_app_session Dict.get in refl) refl refl

secured_rpc-cases_example :
    let security = session_security still lib (holding "") "a" "secret" in
    let beat = heartbeat_handler still lib (reads "t6" "") "a" in
    let out = secured_rpc still lib (reads "t6" "") security beat (holding "") in
    IsServed still lib (reads "t6" "") security beat (holding "") out
    ⊎ IsRefused still lib (reads "t6" "") (holding "") out
secured_rpc-cases_example =
    secured_rpc-cases still lib (reads "t6" "")
      (session_security still lib (holding "") "a" "secret")
      (heartbeat_handler still lib (reads "t6" "") "a") (holding "")
