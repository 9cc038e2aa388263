-- ===== src/Tests/Alerts.antt =====
-- src/alert_engine.rs at concrete inputs, with whole numbers in the place of f64.
use Prim.Native.Nat.{compare}
use cc_r_device_agent.Prelude.{
  ℕ, ◌+◌, ◌-◌, ◌/◌, ◌*◌, ◌^◌, ◌≤◌, String, ◌≡◌, refl, Bool, true, Option, none, some, List, [], ◌∷◌,
  arith, length, ltb, leb, any_char,
}
use cc_r_device_agent.Prelude.Dict
use cc_r_device_agent.Alerts.Rules.{
  Floats, critical, gt, latest, all_of, AlertCondition, AlertRule, TelemetryDataPoint, new_state,
  severity_text,
}
use cc_r_device_agent.Alerts.Conditions.{
  matched_from, all_matched, check_logical_op, triggered, matching_points, matches_pattern,
  metric_regex, replace, labels_match, aggregate, newest, evaluate_point,
}
use cc_r_device_agent.Alerts.Conditions
use cc_r_device_agent.Prelude.Sort.{keep}
use cc_r_device_agent.Alerts.Engine.{
  new, add_rule, evaluate, evaluate_all, evaluate_rule_internal, evaluate_rule, update_state,
  fire_alert, push_alert, alert_of, first_condition,
}
use cc_r_device_agent.Alerts.Matching.{meets, evaluate_rule-meets}
use cc_r_device_agent.Alerts.Times.{IsSpaced, times}
use cc_r_device_agent.Alerts.Pacing.{last_fired}
use cc_r_device_agent.Alerts.History.{Op, add, evaluate_at, run, run-bounded, run-IsSpaced}

abbrev total : List ℕ → ℕ
total [] = 0
total (x ∷ xs) = x + total xs

abbrev pub whole : Floats
whole = record {
  F = ℕ;
  zero = 0;
  epsilon = 1;
  lt = ltb;
  le = leb;
  sub = λ a b. a - b;
  div = λ a b. a / b;
  abs = λ a. a;
  sum = total;
  of_ℕ = λ n. n;
  partial_cmp = λ a b. some (compare a b);
}

abbrev no_regex : String → String → Option Bool
no_regex pattern name = none

abbrev hot : AlertCondition whole
hot = record {
  metric_name = "cpu";
  label_filter = [];
  operator = gt;
  threshold = 90;
  aggregation = latest;
  severity = critical;
}

abbrev rule : AlertRule whole
rule = record {
  id = "r";
  name = "hot";
  description = none;
  enabled = true;
  conditions = hot ∷ [];
  condition_op = all_of;
  duration = none;
  cooldown_seconds = 60;
  actions = [];
  severity = none;
  tags = [];
  created_at = 0;
  updated_at = 0;
}

abbrev point : ℕ → TelemetryDataPoint whole
point value = record {
  metric_name = "cpu";
  value = value;
  unit = "percent";
  timestamp = 7;
  labels = [];
}

abbrev name_of : String → String
name_of id = "alert"

-- Hot at 100, 130 and 160 seconds.
abbrev history : List (Op whole)
history =
    add rule
    ∷ evaluate_at name_of (point 95 ∷ []) (100 * 10 ^ 9)
    ∷ evaluate_at name_of (point 97 ∷ []) (130 * 10 ^ 9)
    ∷ evaluate_at name_of (point 99 ∷ []) (160 * 10 ^ 9)
    ∷ []

evaluate_rule-meets_example :
    (evaluate_rule whole no_regex rule (point 95 ∷ []) 0).is_matched
    ≡ meets whole no_regex (point 95 ∷ []) all_of (hot ∷ [])
evaluate_rule-meets_example = evaluate_rule-meets whole no_regex (point 95 ∷ []) rule 0

run-bounded_example : length (run whole no_regex history (new whole)).recent_alerts ≤ 1000
run-bounded_example = run-bounded whole no_regex history

run-IsSpaced_example :
    let e = run whole no_regex history (new whole) in
    IsSpaced 60 (times whole "r" e.recent_alerts) (last_fired whole "r" 60 e)
run-IsSpaced_example = run-IsSpaced whole no_regex "r" 60 (omega arith) history refl

fires_twice :
    times whole "r" (run whole no_regex history (new whole)).recent_alerts ≡ 100 ∷ 160 ∷ []
unfolding run new add_rule evaluate evaluate_all evaluate_rule_internal evaluate_rule
    check_logical_op all_matched matched_from triggered matching_points matches_pattern metric_regex
    replace labels_match any_char aggregate newest evaluate_point Conditions.evaluate update_state
    fire_alert push_alert alert_of severity_text first_condition keep Dict.get Dict.insert new_state
fires_twice = refl
