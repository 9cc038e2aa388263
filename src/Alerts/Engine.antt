-- ===== src/Alerts/Engine.antt =====
-- src/alert_engine.rs, `AlertEngine`: its rules, their states, the history, and its operations. An
-- action of a rule is only logged.
use cc_r_device_agent.Prelude.{
  ℕ, ◌+◌, ◌/◌, ◌%◌, ◌^◌, String, Bool, true, false, not, ◌&&◌, Option, none, some, List, [], ◌∷◌,
  ◌++◌, map, length, get_elem?, ltb, is_some, or_else, str_eq, string_eq, if◌then◌else◌, ◌+s◌,
}
use mathlib.Core.Option
use cc_r_device_agent.Prelude.Dict
use cc_r_device_agent.Prelude.Dict.{Dict, values}
use cc_r_device_agent.Prelude.Sort.{keep, take}
use mathlib.Core.List.{reverse}
use cc_r_device_agent.Alerts.Rules.{
  Floats, AlertState, new_state, AlertCondition, AlertRule, Alert, EvaluatedMetric,
  EvaluationResult, TelemetryDataPoint, severity_text,
}
use cc_r_device_agent.Alerts.Conditions.{check_logical_op, matched_from}

-- `timestamp()`, whole seconds.
abbrev pub timestamp : ℕ → ℕ
timestamp t = t / 10 ^ 9

-- `now.timestamp() - since.timestamp() < seconds as i64`: the difference has a sign, and so has the
-- cast of a u64.
abbrev pub shorter : ℕ → ℕ → ℕ → Bool
shorter now since seconds =
    if ltb seconds (2 ^ 63)
    then ltb (timestamp now) (timestamp since + seconds)
    else ltb (timestamp now + 2 ^ 64) (timestamp since + seconds)

module _ (fl : Floats) where
  pub record AlertEngine : Type 0 where
    pub rules : Dict String (AlertRule fl)
    pub states : Dict String AlertState
    pub recent_alerts : List (Alert fl)
    pub max_history : ℕ

  unfoldable pub new : AlertEngine
  new = record { rules = []; states = []; recent_alerts = []; max_history = 1000 }

  unfoldable pub add_rule : AlertRule fl → AlertEngine → AlertEngine
  unfolding new_state
  add_rule rule e = record e {
    rules = Dict.insert rule.id rule e.rules;
    states =
        if is_some (Dict.get rule.id e.states)
        then e.states
        else Dict.insert rule.id (new_state rule.id) e.states;
  }

  unfoldable pub remove_rule : String → AlertEngine → AlertEngine
  remove_rule rule_id e = record e {
    rules = Dict.remove rule_id e.rules;
    states = Dict.remove rule_id e.states;
  }

  unfoldable pub get_state : String → AlertEngine → Option AlertState
  get_state rule_id e = Dict.get rule_id e.states

  -- `recent_alerts.push(alert)`, and `remove(0)` where there are too many.
  abbrev pub drop_first : List (Alert fl) → List (Alert fl)
  drop_first [] = []
  drop_first (a ∷ rest) = rest

  unfoldable pub push_alert : Alert fl → AlertEngine → AlertEngine
  push_alert alert e =
      let pushed = e.recent_alerts ++ alert ∷ [] in
      record e {
        recent_alerts = if ltb e.max_history (length pushed) then drop_first pushed else pushed;
      }

  -- The first matched condition that the rule has.
  unfoldable pub first_condition : List ℕ → List (AlertCondition fl) → Option (AlertCondition fl)
  first_condition [] conditions = none
  first_condition (i ∷ is) conditions =
      let later = first_condition is conditions in
      elim (get_elem? conditions i) [ none ↦ later | some c ↦ some c ]

  abbrev pub first_metric : List (EvaluatedMetric fl) → Option (EvaluatedMetric fl)
  first_metric [] = none
  first_metric (m ∷ ms) = some m

  -- The argument `id` is the alert's new UUID.
  unfoldable pub alert_of :
      String
      → AlertRule fl
      → AlertCondition fl
      → Option (EvaluatedMetric fl)
      → ℕ
      → String
      → Alert fl
  unfolding severity_text
  alert_of rule_id rule c metric now id = record {
    id = id;
    rule_id = rule_id;
    rule_name = rule.name;
    severity = c.severity;
    message = "[" +s severity_text c.severity +s "] " +s rule.name +s " triggered";
    description = rule.description;
    metric_name = or_else (Option.map (λ m. m.metric_name) metric) "";
    metric_value = or_else (Option.map (λ m. m.value) metric) fl.zero;
    threshold = c.threshold;
    operator = c.operator;
    labels = or_else (Option.map (λ m. m.labels) metric) [];
    fired_at = now;
    resolved_at = none;
    tags = rule.tags;
  }

  -- `last_fired_at` and the counter, a u64.
  abbrev pub fired : ℕ → AlertState → AlertState
  fired now s = record s { last_fired_at = some now; fire_count = (s.fire_count + 1) % 2 ^ 64 }

  abbrev pub mark_fired : String → ℕ → Option AlertState → AlertEngine → AlertEngine
  mark_fired rule_id now none e = e
  mark_fired rule_id now (some s) e = record e {
    states = Dict.insert rule_id (fired now s) e.states;
  }

  abbrev pub fire_condition :
      String
      → AlertRule fl
      → EvaluationResult fl
      → ℕ
      → String
      → AlertEngine
      → Option (AlertCondition fl)
      → AlertEngine
  fire_condition rule_id rule result now id e none = e
  fire_condition rule_id rule result now id e (some c) =
      push_alert (alert_of rule_id rule c (first_metric result.triggering_metrics) now id)
        (mark_fired rule_id now (Dict.get rule_id e.states) e)

  abbrev pub fire_rule :
      String → EvaluationResult fl → ℕ → String → AlertEngine → Option (AlertRule fl) → AlertEngine
  fire_rule rule_id result now id e none = e
  fire_rule rule_id result now id e (some rule) =
      fire_condition rule_id rule result now id e
        (first_condition result.matched_conditions rule.conditions)

  unfoldable pub fire_alert : String → EvaluationResult fl → ℕ → String → AlertEngine → AlertEngine
  unfolding push_alert alert_of first_condition
  fire_alert rule_id result now id e = fire_rule rule_id result now id e (Dict.get rule_id e.rules)

  -- The last firing lies in the cooldown.
  abbrev pub cooling : Option (AlertRule fl) → AlertState → ℕ → Bool
  cooling rule s now = elim s.last_fired_at [
    | none ↦ false
    | some last ↦ shorter now last (or_else (Option.map (λ r. r.cooldown_seconds) rule) 300)
  ]

  -- The condition has not held for long enough.
  abbrev pub too_early : Option (AlertRule fl) → AlertState → ℕ → Bool
  too_early none s now = false
  too_early (some rule) s now = elim s.firing_since [
    | none ↦ false
    | some since ↦ elim rule.duration [ none ↦ false | some d ↦ shorter now since d.for_seconds ]
  ]

  -- The state after the evaluation, but for what firing changes.
  abbrev pub observed : EvaluationResult fl → ℕ → AlertState → AlertState
  observed result now s =
      if result.is_matched
      then record s {
        last_evaluated_at = some now;
        firing_since = if s.is_firing then s.firing_since else some now;
        is_firing = true;
      }
      else record s {
        last_evaluated_at = some now;
        firing_since = if s.is_firing then none else s.firing_since;
        is_firing = false;
      }

  abbrev pub update_found :
      String → EvaluationResult fl → ℕ → String → AlertEngine → Option AlertState → AlertEngine
  update_found rule_id result now id e none = e
  update_found rule_id result now id e (some s) =
      let s' = observed result now s in
      let rule = Dict.get rule_id e.rules in
      let e' = record e { states = Dict.insert rule_id s' e.states } in
      if result.is_matched && not (cooling rule s' now) && not (too_early rule s' now)
      then fire_alert rule_id result now id e'
      else e'

  unfoldable pub update_state :
      String → EvaluationResult fl → ℕ → String → AlertEngine → AlertEngine
  unfolding fire_alert
  update_state rule_id result now id e =
      update_found rule_id result now id e (Dict.get rule_id e.states)

  module _ (is_match : String → String → Option Bool) where
    unfoldable pub evaluate_rule :
        AlertRule fl → List (TelemetryDataPoint fl) → ℕ → EvaluationResult fl
    unfolding matched_from check_logical_op
    evaluate_rule rule points now =
        let (matched, metrics) = matched_from fl is_match 0 rule.conditions points in
        record {
          rule_id = rule.id;
          is_matched = check_logical_op matched rule.conditions rule.condition_op;
          matched_conditions = matched;
          triggering_metrics = metrics;
          evaluated_at = now;
        }

    abbrev unmatched : String → ℕ → EvaluationResult fl
    unmatched rule_id now = record {
      rule_id = rule_id;
      is_matched = false;
      matched_conditions = [];
      triggering_metrics = [];
      evaluated_at = now;
    }

    unfoldable pub evaluate_rule_internal :
        String → List (TelemetryDataPoint fl) → ℕ → AlertEngine → EvaluationResult fl
    unfolding evaluate_rule
    evaluate_rule_internal rule_id points now e = elim (Dict.get rule_id e.rules) [
      | none ↦ unmatched rule_id now
      | some rule ↦ evaluate_rule rule points now
    ]

    -- `id_of` has the UUID of the alert that a rule fires, if it does.
    unfoldable pub evaluate_all :
        (String → String)
        → List String
        → List (TelemetryDataPoint fl)
        → ℕ
        → AlertEngine
        → AlertEngine × List (EvaluationResult fl)
    unfolding evaluate_rule_internal update_state
    evaluate_all id_of [] points now e = (e, [])
    evaluate_all id_of (rule_id ∷ ids) points now e =
        let result = evaluate_rule_internal rule_id points now e in
        let rest =
          evaluate_all id_of ids points now (update_state rule_id result now (id_of rule_id) e) in
        (rest.0, result ∷ rest.1)

    unfoldable pub evaluate :
        (String → String)
        → List (TelemetryDataPoint fl)
        → ℕ
        → AlertEngine
        → AlertEngine × List (EvaluationResult fl)
    unfolding evaluate_all
    evaluate id_of points now e =
        evaluate_all id_of (map (λ r. r.id) (keep (λ r. r.enabled) (values e.rules))) points now e

  unfoldable pub get_recent_alerts : ℕ → AlertEngine → List (Alert fl)
  get_recent_alerts limit e = take limit (reverse e.recent_alerts)

  unfoldable pub get_active_alerts : AlertEngine → List (Alert fl)
  get_active_alerts e = keep (λ a. not (is_some a.resolved_at)) e.recent_alerts

  abbrev pub resolve_first : String → ℕ → List (Alert fl) → List (Alert fl)
  resolve_first alert_id at [] = []
  resolve_first alert_id at (a ∷ rest) =
      let later = resolve_first alert_id at rest in
      if str_eq a.id alert_id then record a { resolved_at = some at } ∷ rest else a ∷ later

  unfoldable pub resolve_alert : String → ℕ → AlertEngine → AlertEngine
  resolve_alert alert_id resolved_at e = record e {
    recent_alerts = resolve_first alert_id resolved_at e.recent_alerts;
  }
