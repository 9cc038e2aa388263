-- ===== src/AppPlatform/Session.antt =====
-- src/app_platform.rs: tokens, sessions, and the principals and roles of the applications.
use cc_r_device_agent.Prelude.{
  ℕ, ◌+◌, ◌-◌, ◌/◌, ◌%◌, ◌^◌, String, Bool, true, not, Option, none, some, [], ltb, or_else, str_eq,
  string_eq, if◌then◌else◌, Result, ok, err, ◌+s◌, show_ℕ,
}
use cc_r_device_agent.Prelude.Dict
use cc_r_device_agent.Prelude.Dict.{Dict}
use cc_r_device_agent.Security.Types.{Principal, Role, admin, operator, readonly}
use cc_r_device_agent.Security.Audit.{hex_encode}
use cc_r_device_agent.Store.Sessions.{AppTables, AppSessionRecord, load_app_session}
use cc_r_device_agent.Chain.Interceptor.{unauthenticated}
use cc_r_device_agent.AppPlatform.State.{Library, Status}

unfoldable pub hash_token : Library → String → String
hash_token lib token = hex_encode (lib.sha256 token)

unfoldable pub generate_app_id : String → ℕ → String
generate_app_id app_name now_ms = app_name +s "_" +s show_ℕ now_ms

abbrev refuse : String → Result Status (Unit {0})
refuse message = err (record { code = unauthenticated; message = message })

-- `now + session_duration.as_millis() as i64`: the cast drops the higher bits, and the sum wraps around
-- as in a release build.
unfoldable pub expiry : ℕ → ℕ → ℕ
expiry now_ms duration_ms = (now_ms + duration_ms) % 2 ^ 64

-- `now_ms > expires`, of a time and of an `i64` by its word: a negative end is always past.
unfoldable pub is_past : ℕ → ℕ → Bool
is_past expires now_ms = if ltb expires (2 ^ 63) then ltb expires now_ms else true

-- `expires / 1000` of an `i64` by its word, towards zero.
unfoldable pub in_seconds : ℕ → ℕ
in_seconds expires =
    if ltb expires (2 ^ 63) then expires / 1000 else (2 ^ 64 - (2 ^ 64 - expires) / 1000) % 2 ^ 64

-- The checks of the record that was found, in their order.
unfoldable pub check_record :
    Library → String → ℕ → Option AppSessionRecord → Result Status (Unit {0})
unfolding hash_token is_past
check_record lib token now_ms none = refuse "unknown app_id"
check_record lib token now_ms (some rec) =
    if rec.revoked
    then refuse "session revoked"
    else if not (str_eq rec.session_token_hash (hash_token lib token))
    then refuse "invalid session_token"
    else if is_past rec.expires_at_unix_ms now_ms
    then refuse "session expired"
    else ok tt

unfoldable pub validate_session :
    Library → String → String → ℕ → AppTables → Result Status (Unit {0})
unfolding load_app_session check_record
validate_session lib app_id token now_ms t =
    check_record lib token now_ms (load_app_session app_id t)

abbrev pub role_named : Option String → Role
role_named none = operator
role_named (some name) =
    if str_eq name "admin" then admin else if str_eq name "readonly" then readonly else operator

abbrev pub role_of_found : Library → Option AppSessionRecord → Result Status Role
role_of_found lib none = err (record { code = unauthenticated; message = "unknown app_id" })
role_of_found lib (some rec) =
    ok (role_named (Dict.get "role" (or_else (lib.map_of_json rec.metadata_json) [])))

unfoldable pub app_role : Library → String → AppTables → Result Status Role
unfolding load_app_session
app_role lib app_id t = role_of_found lib (load_app_session app_id t)

abbrev role_or_operator : Result Status Role → Role
role_or_operator (ok role) = role
role_or_operator (err _) = operator

unfoldable pub app_principal : Library → String → String → AppTables → Principal
unfolding app_role
app_principal lib device_id app_id t = record {
  tenant_id = "default";
  device_id = device_id;
  subject = "app:" +s app_id;
  role = role_or_operator (app_role lib app_id t);
}

unfoldable pub pending_principal : String → String → Principal
pending_principal device_id app_name = record {
  tenant_id = "default";
  device_id = device_id;
  subject = "app:pending:" +s app_name;
  role = operator;
}
