-- ===== src/Health/Restarts.antt =====
-- When a report of src/health_evaluator.rs fires, by the history of the calls.
use cc_r_device_agent.Prelude.{
  ℕ, ◌-◌, ◌^◌, ◌≤◌, ◌<◌, ◌≡◌, refl, ap, ◌∙◌, String, Option, none, some, List, ◌∷◌, length,
  if◌then◌else◌, eq_iff, arith, string_eq,
}
use cc_r_device_agent.Health.Evaluator.{HealthStatus, HealthAction, counted, entry_of, report}
use cc_r_device_agent.Health.Counter.{
  Event, reported, after, streak, policy_of, fires, last_restart_of, evaluate_lem, counted-streak,
  entry-Tells,
}

-- The action that a report calls for.
abbrev pub expected : String → HealthStatus → ℕ → List Event → Option HealthAction
expected id s t es =
    let p = policy_of id es in
    let n = streak id (reported id s t ∷ es) in
    if fires p n (last_restart_of id es) t
    then some (record { app_id = id; action = p.action; consecutive_failures = n })
    else none

-- After any history of fewer than 2^32 - 1 calls, a report fires exactly if the unhealthy reports of
-- the application since its last other one, this one included, are as many as its policy's threshold
-- and its last restart is not closer than the policy's interval; the action is then that of the
-- policy, with this number.
pub report-expected :
    (id : String) (s : HealthStatus) (t : ℕ) (es : List Event)
    → length es < 2 ^ 32 - 1
    → (report id s t (after es)).1 ≡ expected id s t es
unfolding report
report-expected id s t es h =
    let told = entry-Tells id es (omega arith) in
    let c = counted-streak id id s t es ((eq_iff id id).1 refl) h told.counts in
    ap (λ z. z.1) (evaluate_lem id t (counted s (entry_of id (after es))))
    ∙ rw told.obeys (rw told.remembers (rw c))

-- After any history of fewer than 2^32 - 1 calls, a report that fires comes no sooner after the application's last restart than
-- the interval of its policy.
pub report_spacing :
    (id : String) (s : HealthStatus) (t r : ℕ) (es : List Event) (a : HealthAction)
    → length es < 2 ^ 32 - 1
    → (report id s t (after es)).1 ≡ some a
    → last_restart_of id es ≡ some r
    → (policy_of id es).min_restart_interval ≤ t - r
report_spacing id s t r es a h f l = ground (arith, report-expected id s t es h)
