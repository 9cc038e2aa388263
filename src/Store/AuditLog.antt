-- ===== src/Store/AuditLog.antt =====
-- crates/agent-store/src/lib.rs, the table audit_events: how an event is appended behind the last one,
-- and how the chain is loaded and queried. JSON, of serde_json, is a parameter.
pub mod Refines
pub mod Queries
use Prim.Native.Nat.{min}
use cc_r_device_agent.Prelude.{
  ℕ, ◌+◌, ◌-◌, ◌/◌, ◌^◌, String, Bool, true, false, ◌&&◌, Option, none, some, List, [], ◌∷◌, ◌++◌,
  map, any, leb, str_eq, if◌then◌else◌, Result, ok, err,
}
use mathlib.Core.Option
use cc_r_device_agent.Prelude.Sort.{sort_by, keep}
use cc_r_device_agent.Security.Types.{Action, Resource}
use cc_r_device_agent.Security.Audit.{
  AuditEvent, AuditChain, debug_action, debug_resource, calculate_hash, push_stored,
}

-- `as_millis().min(i64::MAX)`, of a time in nanoseconds.
abbrev pub system_time_to_unix_ms : ℕ → ℕ
system_time_to_unix_ms time = min (time / 1_000_000) (2 ^ 63 - 1)

pub record AuditRow : Type 0 where
  pub id : String
  pub sequence : ℕ
  pub timestamp_unix_ms : ℕ
  pub tenant_id : String
  pub device_id : String
  pub principal : String
  pub action : String
  pub resource : String
  pub target : String
  pub params_digest : String
  pub result : String
  pub trace_id : String
  pub prev_hash : String
  pub hash : String
  pub event_json : String

-- The rows in the order of their insertion.
abbrev pub Table : Type 0
Table = List AuditRow

abbrev pub later : AuditRow → Option AuditRow → Option AuditRow
later r none = some r
later r (some q) = if leb q.sequence r.sequence then some r else some q

-- `ORDER BY sequence DESC LIMIT 1`.
unfoldable pub newest : Table → Option AuditRow
newest [] = none
newest (r ∷ rs) = later r (newest rs)

-- `SELECT COALESCE(MAX(sequence), 0) + 1`.
unfoldable pub next_sequence : Table → ℕ
unfolding newest
next_sequence t = elim (newest t) [ none ↦ 1 | some r ↦ r.sequence + 1 ]

unfoldable pub newest_hash : Table → String
unfolding newest
newest_hash t = elim (newest t) [ none ↦ "" | some r ↦ r.hash ]

abbrev pub in_order : AuditRow → AuditRow → Bool
in_order r q = leb r.sequence q.sequence

pub record AuditEventFilter : Type 0 where
  pub principal : Option String
  pub action : Option Action
  pub resource : Option Resource
  pub result : Option String
  pub since : Option ℕ
  pub until : Option ℕ

-- `?n IS NULL OR column = ?n`.
abbrev pub is_wanted : Option String → String → Bool
is_wanted none column = true
is_wanted (some wanted) column = str_eq column wanted

abbrev pub is_since : Option ℕ → ℕ → Bool
is_since none ms = true
is_since (some since) ms = leb since ms

abbrev pub is_until : Option ℕ → ℕ → Bool
is_until none ms = true
is_until (some until) ms = leb ms until

unfoldable pub row_matches : AuditEventFilter → AuditRow → Bool
row_matches f r =
    is_wanted f.principal r.principal
    && is_wanted (Option.map debug_action f.action) r.action
    && is_wanted (Option.map debug_resource f.resource) r.resource
    && is_wanted f.result r.result
    && is_since (Option.map system_time_to_unix_ms f.since) r.timestamp_unix_ms
    && is_until (Option.map system_time_to_unix_ms f.until) r.timestamp_unix_ms

module _ (to_json : AuditEvent → String) where
  unfoldable pub row_of : ℕ → AuditEvent → AuditRow
  row_of sequence e = record {
    id = e.event_id;
    sequence = sequence;
    timestamp_unix_ms = system_time_to_unix_ms e.timestamp;
    tenant_id = e.tenant_id;
    device_id = e.device_id;
    principal = e.principal;
    action = debug_action e.action;
    resource = debug_resource e.resource;
    target = e.target;
    params_digest = e.params_digest;
    result = e.result;
    trace_id = e.trace_id;
    prev_hash = e.prev_hash;
    hash = e.hash;
    event_json = to_json e;
  }

  -- `id` is the primary key.
  unfoldable pub append_audit_event :
      (String → List ℕ) → AuditEvent → Table → Table × Result String (Unit {0})
  unfolding newest_hash next_sequence row_of
  append_audit_event sha256 e t =
      let linked = record e { prev_hash = newest_hash t } in
      let sealed = record linked { hash = calculate_hash sha256 linked linked.prev_hash } in
      if any (λ r. str_eq r.id sealed.event_id) t
      then (t, err "UNIQUE constraint failed: audit_events.id")
      else (t ++ row_of (next_sequence t) sealed ∷ [], ok tt)

module _ (from_json : String → Option AuditEvent) where
  unfoldable pub row_to_audit_event : AuditRow → Result String AuditEvent
  row_to_audit_event r = elim (from_json r.event_json) [
    | none ↦ err "invalid event_json"
    | some e ↦ ok (record e { result = r.result; prev_hash = r.prev_hash; hash = r.hash })
  ]

  -- The loop over the rows; the first that cannot be read ends it.
  unfoldable pub push_rows : AuditChain → Table → Result String AuditChain
  unfolding row_to_audit_event push_stored
  push_rows c [] = ok c
  push_rows c (r ∷ rs) = elim (row_to_audit_event r) [
    | ok e ↦ push_rows (push_stored c e) rs
    | err x ↦ err x
  ]

  unfoldable pub load_audit_chain : Table → Result String AuditChain
  unfolding push_rows
  load_audit_chain t = push_rows (record { events = [] }) (sort_by in_order t)

  unfoldable pub read_rows : Table → Result String (List AuditEvent)
  unfolding row_to_audit_event
  read_rows [] = ok []
  read_rows (r ∷ rs) = elim (row_to_audit_event r) [
    | ok e ↦ elim (read_rows rs) [ ok es ↦ ok (e ∷ es) | err x ↦ err x ]
    | err x ↦ err x
  ]

  unfoldable pub query_audit_events : AuditEventFilter → Table → Result String (List AuditEvent)
  unfolding read_rows row_matches
  query_audit_events f t = read_rows (sort_by in_order (keep (row_matches f) t))
