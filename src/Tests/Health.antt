-- ===== src/Tests/Health.antt =====
-- The health of an application with the default policy.
use cc_r_device_agent.Prelude.{ℕ, ◌*◌, ◌≡◌, refl, some, none, List, [], ◌∷◌, arith}
use cc_r_device_agent.Prelude.Dict
use cc_r_device_agent.Health.Evaluator.{
  unhealthy, healthy, HealthAction, restart_then_alert, evaluate, report,
}
use cc_r_device_agent.Health.Counter.{Event, reported, after}
use cc_r_device_agent.Health.Restarts.{expected, report-expected}

abbrev second : ℕ
second = 1000000000

-- Newest first: the third unhealthy report fires.
abbrev history : List Event
history =
    reported "a" unhealthy (3 * second)
    ∷ reported "b" healthy (2 * second)
    ∷ reported "a" unhealthy (2 * second)
    ∷ reported "a" unhealthy second
    ∷ []

abbrev fired : HealthAction
fired = record { app_id = "a"; action = restart_then_alert; consecutive_failures = 4 }

limited : (report "a" unhealthy (32 * second) (after history)).1 ≡ none
unfolding report after evaluate Dict.get Dict.insert
limited = refl

fires_again : (report "a" unhealthy (33 * second) (after history)).1 ≡ some fired
unfolding report after evaluate Dict.get Dict.insert
fires_again = refl

report-expected_example :
    (report "a" unhealthy (33 * second) (after history)).1
    ≡ expected "a" unhealthy (33 * second) history
report-expected_example = report-expected "a" unhealthy (33 * second) history (omega arith)
