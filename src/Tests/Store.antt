-- ===== src/Tests/Store.antt =====
-- crates/agent-store/src/lib.rs at concrete inputs.
use Prim.Native.Char.{code}
use cc_r_device_agent.Prelude.{ℕ, String, ◌≡◌, refl, true, false, none, some, List, [], ◌∷◌, ok}
use cc_r_device_agent.Prelude.Dict
use cc_r_device_agent.Prelude.Sort.{keep}
use cc_r_device_agent.Security.Types.{Principal, operator, telemetry, write, execute}
use cc_r_device_agent.Security.Audit.{AuditEvent, verify}
use cc_r_device_agent.Security.Replay.{ReplayKey, replay_key_eq}
use cc_r_device_agent.Store.AuditLog.{AuditEventFilter, load_audit_chain, query_audit_events}
use cc_r_device_agent.Store.AuditLog.Refines.{rows_of, logged, append_all, load-append_all}
use cc_r_device_agent.Store.AuditLog.Queries.{is_match, query_rows}
use cc_r_device_agent.Store.Nonces.{
  try_insert_replay_nonce, NonceOp, try_insert, prune, run, nonce_once,
}
use cc_r_device_agent.Tests.Encoding.{encode, decode, decode-encode}

abbrev codes : String → List ℕ
codes String.[] = []
codes (String.◌∷◌ c s) = code c ∷ codes s

abbrev person : Principal
person = record { tenant_id = "t"; device_id = "d"; subject = "u"; role = operator }

abbrev event : String → AuditEvent
event id = record {
  event_id = id;
  timestamp = 3_000_000;
  tenant_id = "t";
  device_id = "d";
  principal = "u";
  action = write;
  resource = telemetry;
  target = "x";
  params_digest = "";
  result = "success";
  trace_id = "t1";
  prev_hash = "";
  hash = "";
}

load-append_all_example :
    let c =
      logged encode decode decode-encode codes
        (event "e1" ∷ event "e2" ∷ event "e1" ∷ [])
        (record { events = [] }) in
    (load_audit_chain decode (
        append_all encode decode decode-encode codes (event "e1" ∷ event "e2" ∷ event "e1" ∷ []) [])
      ≡ ok c)
    × (verify codes c ≡ true)
load-append_all_example =
    load-append_all encode decode decode-encode codes (event "e1" ∷ event "e2" ∷ event "e1" ∷ [])

abbrev failures : AuditEventFilter
failures = record {
  principal = none;
  action = some write;
  resource = none;
  result = some "failed";
  since = none;
  until = none;
}

query_rows_example :
    query_audit_events decode failures
      (rows_of encode decode decode-encode 0 (event "e1" ∷ event "e2" ∷ []))
    ≡ ok (keep (is_match failures) (event "e1" ∷ event "e2" ∷ []))
query_rows_example =
    query_rows encode decode decode-encode failures
      (record { events = event "e1" ∷ event "e2" ∷ [] })

abbrev key : String → ReplayKey
key nonce = record {
  tenant_id = "t";
  device_id = "d";
  subject = "u";
  action = execute;
  nonce = nonce;
}

abbrev calls : List NonceOp
calls = try_insert (key "m") 4_000_000 ∷ prune 2_000_000 ∷ []

nonce_once_example :
    let t' = run calls (try_insert_replay_nonce (key "n") 3_000_000 []).0 in
    try_insert_replay_nonce (key "n") 9_000_000 t' ≡ (t', false)
nonce_once_example =
    nonce_once [] (key "n") 3_000_000 9_000_000 calls
      (unfold try_insert_replay_nonce Dict.get in refl) refl
