-- ===== src/Store/Sessions.antt =====
-- crates/agent-store/src/lib.rs, the tables app_sessions, app_manifests and app_health_reports. Times
-- are milliseconds since the epoch. An `i64` stands by its word of 64 bits, so that a number from 2^63
-- on is negative; only the end of a session is ever that late.
use cc_r_device_agent.Prelude.{
  ℕ, String, Bool, true, false, not, Option, none, some, List, [], ◌∷◌, is_some, leb, ltb, str_eq,
  string_eq, if◌then◌else◌, Result, ok, err,
}
use cc_r_device_agent.Prelude.Dict
use cc_r_device_agent.Prelude.Dict.{Dict, values}
use cc_r_device_agent.Prelude.Sort.{sort_by, keep}

pub record AppSessionRecord : Type 0 where
  pub app_id : String
  pub app_name : String
  pub app_version : String
  pub session_token_hash : String
  pub capabilities_json : String
  pub metadata_json : String
  pub device_id : String
  pub registered_at_unix_ms : ℕ
  pub expires_at_unix_ms : ℕ
  pub last_heartbeat_unix_ms : ℕ
  pub revoked : Bool

pub record AppManifestRecord : Type 0 where
  pub app_id : String
  pub version : String
  pub manifest_json : String

pub record AppHealthReportRecord : Type 0 where
  pub app_id : String
  pub status : String
  pub message : String
  pub metrics_json : String
  pub reported_at_unix_ms : ℕ

-- The newest report is first.
pub record AppTables : Type 0 where
  pub sessions : Dict String AppSessionRecord
  pub manifests : Dict String AppManifestRecord
  pub reports : List AppHealthReportRecord

-- `ON CONFLICT(app_id) DO UPDATE` keeps the name, the device and the time of the registration.
abbrev pub upserted : AppSessionRecord → Option AppSessionRecord → AppSessionRecord
upserted r none = r
upserted r (some old) = record old {
  app_version = r.app_version;
  session_token_hash = r.session_token_hash;
  capabilities_json = r.capabilities_json;
  metadata_json = r.metadata_json;
  expires_at_unix_ms = r.expires_at_unix_ms;
  last_heartbeat_unix_ms = r.last_heartbeat_unix_ms;
  revoked = r.revoked;
}

unfoldable pub upsert_app_session : AppSessionRecord → AppTables → AppTables
upsert_app_session r t = record t {
  sessions = Dict.insert r.app_id (upserted r (Dict.get r.app_id t.sessions)) t.sessions;
}

unfoldable pub load_app_session : String → AppTables → Option AppSessionRecord
load_app_session app_id t = Dict.get app_id t.sessions

unfoldable pub list_app_sessions : Bool → AppTables → List AppSessionRecord
list_app_sessions include_revoked t =
    sort_by (λ r q. leb r.registered_at_unix_ms q.registered_at_unix_ms)
      (if include_revoked then values t.sessions else keep (λ r. not r.revoked) (values t.sessions))

-- `UPDATE .. WHERE app_id = ?1 AND revoked = 0`, and whether a row was changed.
abbrev pub update_found :
    String
    → (AppSessionRecord → AppSessionRecord)
    → AppTables
    → Option AppSessionRecord
    → AppTables × Bool
update_found app_id change t none = (t, false)
update_found app_id change t (some r) =
    if r.revoked
    then (t, false)
    else (record t { sessions = Dict.insert app_id (change r) t.sessions }, true)

abbrev pub update_live :
    String → (AppSessionRecord → AppSessionRecord) → AppTables → AppTables × Bool
update_live app_id change t = update_found app_id change t (Dict.get app_id t.sessions)

unfoldable pub revoke_app_session : String → AppTables → AppTables × Bool
revoke_app_session app_id t = update_live app_id (λ r. record r { revoked = true }) t

unfoldable pub touch_app_session : String → ℕ → ℕ → AppTables → AppTables × Bool
touch_app_session app_id expires_at last_heartbeat t =
    update_live app_id
      (λ r. record r { expires_at_unix_ms = expires_at; last_heartbeat_unix_ms = last_heartbeat }) t

-- `ON DELETE CASCADE` takes the reports of the application away.
unfoldable pub delete_app_session : String → AppTables → AppTables
delete_app_session app_id t = record t {
  sessions = Dict.remove app_id t.sessions;
  reports = keep (λ r. not (str_eq app_id r.app_id)) t.reports;
}

unfoldable pub upsert_app_manifest : AppManifestRecord → AppTables → AppTables
upsert_app_manifest r t = record t { manifests = Dict.insert r.app_id r t.manifests }

unfoldable pub load_app_manifest : String → AppTables → Option AppManifestRecord
load_app_manifest app_id t = Dict.get app_id t.manifests

-- The application must have a session: `FOREIGN KEY(app_id) REFERENCES app_sessions(app_id)`.
unfoldable pub insert_health_report :
    AppHealthReportRecord → AppTables → AppTables × Result String (Unit {0})
insert_health_report r t =
    if is_some (Dict.get r.app_id t.sessions)
    then (record t { reports = r ∷ t.reports }, ok tt)
    else (t, err "FOREIGN KEY constraint failed")

abbrev later : AppHealthReportRecord → Option AppHealthReportRecord → Option AppHealthReportRecord
later r none = some r
later r (some q) = if ltb r.reported_at_unix_ms q.reported_at_unix_ms then some q else some r

unfoldable pub latest_of : String → List AppHealthReportRecord → Option AppHealthReportRecord
latest_of app_id [] = none
latest_of app_id (r ∷ rs) =
    let rest = latest_of app_id rs in if str_eq r.app_id app_id then later r rest else rest

unfoldable pub load_latest_health_report : String → AppTables → Option AppHealthReportRecord
unfolding latest_of
load_latest_health_report app_id t = latest_of app_id t.reports

unfoldable pub prune_health_reports : ℕ → AppTables → AppTables
prune_health_reports older_than t = record t {
  reports = keep (λ r. leb older_than r.reported_at_unix_ms) t.reports;
}
