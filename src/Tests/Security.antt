-- ===== src/Tests/Security.antt =====
-- crates/agent-core/src/security.rs at concrete inputs, partly those of its unit tests.
use Prim.Native.Char.{code}
use cc_r_device_agent.Prelude.{
  ℕ, String, ◌≡◌, refl, ◌↔◌, ◌⊎◌, ◌≢◌, true, false, List, [], ◌∷◌, ◌++◌, arith, err, map, eq_iff,
  join, show_ℕ,
}
use cc_r_device_agent.Prelude.Dict
use cc_r_device_agent.Security.Types.{
  replay_detected, timestamp_out_of_window, Role, admin, operator, readonly, control_command,
  upgrade, execute, allow, deny, Principal, RequestContext, mtls,
}
use cc_r_device_agent.Security.Rbac.{default_policy, authorize}
use cc_r_device_agent.Security.Rbac.Matrix.{May, authorize-allow_iff}
use cc_r_device_agent.Security.Replay.{ReplayGuard, replay_key_eq, check}
use cc_r_device_agent.Security.Replay.Traces.{Call}
use cc_r_device_agent.Security.Center.{SecurityCenter, authorize_context}
use cc_r_device_agent.Security.Center.Laws.{run_requests, run_requests-no_replay}
use cc_r_device_agent.Security.Audit.{
  AuditEvent, AuditChain, new_event, sealed, append, verify, calculate_hash, hash_input, hex_encode,
  debug_action, debug_resource,
}
use cc_r_device_agent.Security.Audit.Tampering.{
  blame, verify_ignores_principal, verify_detects_edit,
}

abbrev person : Role → Principal
person r = record { tenant_id = "tenant-a"; device_id = "device-1"; subject = "user"; role = r }

readonly_denied : authorize default_policy (person readonly) control_command execute ≡ deny
unfolding authorize default_policy
readonly_denied = refl

authorize-allow_iff_example :
    (authorize default_policy (person operator) upgrade execute ≡ allow)
    ↔ May operator upgrade execute
authorize-allow_iff_example = authorize-allow_iff (person operator) upgrade execute

abbrev guard : ReplayGuard
guard = record { allowed_skew = 60; seen = [] }

abbrev ask : ℕ → Call
ask now = record {
  principal = person operator;
  action = execute;
  timestamp = now;
  nonce = "other";
  now = now;
}

-- The second use of a nonce is refused, and so is a time out of the window.
nonce_reused :
    (check
      (check guard (person operator) execute 1000 "n1" 1000).0
      (person operator)
      execute
      1000
      "n1"
      1010).1
    ≡ err replay_detected
unfolding check Dict.get Dict.retain Dict.insert
nonce_reused = refl

time_too_old : (check guard (person operator) execute 900 "n1" 1000).1 ≡ err timestamp_out_of_window
unfolding check
time_too_old = refl

abbrev center : SecurityCenter
center = record { policy = default_policy; replay_guard = guard }

abbrev context : Role → String → ℕ → RequestContext
context r nonce t = record {
  principal = person r;
  resource = control_command;
  action = execute;
  auth_method = mtls;
  timestamp = t;
  nonce = nonce;
  trace_id = nonce;
}

run_requests-no_replay_example :
    let c = context operator "n1" 1000 in
    let sc =
      run_requests
        (authorize_context center c 1000).0
        ((context readonly "n1" 1005, 1005) ∷ (context admin "n2" 1010, 1010) ∷ []) in
    ((authorize_context sc c 1030).1 ≡ err replay_detected)
    ⊎ ((authorize_context sc c 1030).1 ≡ err timestamp_out_of_window)
run_requests-no_replay_example =
    run_requests-no_replay center (context operator "n1" 1000) 1000 1030
      ((context readonly "n1" 1005, 1005) ∷ (context admin "n2" 1010, 1010) ∷ [])
      (unfold authorize_context authorize default_policy check Dict.get Dict.retain Dict.insert in
        refl)
      (omega arith)

-- A stand-in for SHA-256 that keeps every character.
abbrev toy_digest : String → List ℕ
toy_digest String.[] = []
toy_digest (String.◌∷◌ c s) = code c ∷ toy_digest s

abbrev event : String → String → AuditEvent
event id target =
    new_event id 5_000_000 (person operator) execute control_command target "success" id

abbrev empty_chain : AuditChain
empty_chain = record { events = [] }

appended_verifies :
    verify toy_digest
      (append toy_digest (append toy_digest empty_chain (event "1" "a")) (event "2" "b"))
    ≡ true
unfolding verify append new_event calculate_hash hash_input hex_encode debug_action debug_resource
    join show_ℕ
appended_verifies = refl

verify_ignores_principal_example :
    let c = append toy_digest empty_chain (event "1" "a") in
    verify toy_digest (record { events = map (blame (λ e. "nobody")) c.events })
    ≡ verify toy_digest c
verify_ignores_principal_example =
    verify_ignores_principal toy_digest (λ e. "nobody")
      (append toy_digest empty_chain (event "1" "a"))

-- The second of two stored events, and the same event with another target.
abbrev first : AuditEvent
first = sealed toy_digest (event "1" "a") ""

abbrev second : AuditEvent
second = sealed toy_digest (event "2" "b") first.hash

abbrev forged : AuditEvent
forged = record second { target = "c" }

two_verify : verify toy_digest (record { events = (first ∷ []) ++ second ∷ [] }) ≡ true
unfolding verify sealed new_event calculate_hash hash_input hex_encode debug_action debug_resource
    join show_ℕ
two_verify = refl

forged_differs :
    calculate_hash toy_digest forged forged.prev_hash
    ≢ calculate_hash toy_digest second second.prev_hash
unfolding sealed new_event calculate_hash hash_input hex_encode debug_action debug_resource join
    show_ℕ
forged_differs h = cc ((eq_iff _ _).1 h)

forged-hash : forged.hash ≡ second.hash
forged-hash = refl

verify_detects_edit_example :
    verify toy_digest (record { events = (first ∷ []) ++ forged ∷ [] }) ≡ false
verify_detects_edit_example =
    verify_detects_edit toy_digest (first ∷ []) [] second forged two_verify forged-hash
      forged_differs
