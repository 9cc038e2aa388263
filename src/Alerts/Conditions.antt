-- ===== src/Alerts/Conditions.antt =====
-- src/alert_engine.rs: when a condition holds, and which conditions of a rule do.
use Prim.Native.Nat.{Ordering}
use Prim.Native.Char.{code}
use cc_r_device_agent.Prelude.{
  ℕ, suc, String, Bool, true, false, not, ◌&&◌, Option, none, some, List, [], ◌∷◌, map, any, length,
  leb, ◌==◌, str_eq, string_eq, any_char, if◌then◌else◌, ◌+s◌, or_else,
}
use cc_r_device_agent.Prelude.Dict
use cc_r_device_agent.Prelude.Dict.{Dict}
use cc_r_device_agent.Prelude.Sort.{keep}
use cc_r_device_agent.Alerts.Rules.{
  Floats, ComparisonOp, gt, gte, lt, lte, eq, neq, AggregationFunc, latest, min, max, avg, sum,
  count, std_dev, rate, LogicalOp, all_of, any_of, AlertCondition, EvaluatedMetric,
  TelemetryDataPoint,
}

-- `s.replace(ch, by)`.
unfoldable pub replace : ℕ → String → String → String
replace ch by String.[] = ""
replace ch by (String.◌∷◌ c s) =
    let rest = replace ch by s in if code c == ch then by +s rest else String.◌∷◌ c rest

-- The expression that a pattern is turned into. The cache of compiled expressions only saves time.
unfoldable pub metric_regex : String → String
unfolding replace
metric_regex pattern = "^" +s replace b'?' "." (replace b'*' ".*" pattern) +s "$"

-- `matched.contains(&idx)`.
abbrev pub contains : ℕ → List ℕ → Bool
contains i matched = any (λ j. j == i) matched

-- Every position from a first one on is among those matched.
unfoldable pub all_matched {ℓ} : {A : Type ℓ} → List ℕ → ℕ → List A → Bool
all_matched matched i [] = true
all_matched matched i (c ∷ cs) = contains i matched && all_matched matched (suc i) cs

abbrev pub is_empty {ℓ} : {A : Type ℓ} → List A → Bool
is_empty [] = true
is_empty (x ∷ xs) = false

unfoldable pub check_logical_op {ℓ} : {A : Type ℓ} → List ℕ → List A → LogicalOp → Bool
unfolding all_matched
check_logical_op matched [] op = false
check_logical_op matched (c ∷ cs) all_of = all_matched matched 0 (c ∷ cs)
check_logical_op matched (c ∷ cs) any_of = not (is_empty matched)

-- Every pair of the filter is among the labels.
unfoldable pub labels_match : Dict String String → Dict String String → Bool
labels_match [] labels = true
labels_match ((key, value) ∷ rest) labels =
    let later = labels_match rest labels in
    elim (Dict.get key labels) [ none ↦ false | some v ↦ if str_eq v value then later else false ]

module _ (fl : Floats) where
  unfoldable pub evaluate : ComparisonOp → fl.F → fl.F → Bool
  evaluate gt left right = fl.lt right left
  evaluate gte left right = fl.le right left
  evaluate lt left right = fl.lt left right
  evaluate lte left right = fl.le left right
  evaluate eq left right = fl.lt (fl.abs (fl.sub left right)) fl.epsilon
  evaluate neq left right = fl.le fl.epsilon (fl.abs (fl.sub left right))

  unfoldable pub evaluate_point : AlertCondition fl → fl.F → Bool
  unfolding evaluate
  evaluate_point c value = evaluate c.operator value c.threshold

  abbrev is_greater : Option Ordering → Bool
  is_greater (some Ordering.gt) = true
  is_greater _ = false

  -- `min_by`, the first of the least, and `max_by`, the last of the greatest, by the values; and
  -- `max_by_key`, the last of the newest.
  unfoldable pub min_by :
      TelemetryDataPoint fl → List (TelemetryDataPoint fl) → TelemetryDataPoint fl
  min_by p [] = p
  min_by p (q ∷ rest) = min_by (if is_greater (fl.partial_cmp p.value q.value) then q else p) rest

  unfoldable pub max_by :
      TelemetryDataPoint fl → List (TelemetryDataPoint fl) → TelemetryDataPoint fl
  max_by p [] = p
  max_by p (q ∷ rest) = max_by (if is_greater (fl.partial_cmp p.value q.value) then p else q) rest

  unfoldable pub newest :
      TelemetryDataPoint fl → List (TelemetryDataPoint fl) → TelemetryDataPoint fl
  newest p [] = p
  newest p (q ∷ rest) = newest (if leb p.timestamp q.timestamp then q else p) rest

  abbrev metric_of : TelemetryDataPoint fl → fl.F → EvaluatedMetric fl
  metric_of p value = record {
    metric_name = p.metric_name;
    value = value;
    labels = p.labels;
    timestamp = p.timestamp;
  }

  -- The metric of the points that match a condition; `none` also for the functions that the engine
  -- does not know.
  unfoldable pub aggregate :
      AggregationFunc → List (TelemetryDataPoint fl) → Option (EvaluatedMetric fl)
  unfolding min_by max_by newest
  aggregate func [] = none
  aggregate latest (p ∷ ps) = let q = newest p ps in some (metric_of q q.value)
  aggregate min (p ∷ ps) = let q = min_by p ps in some (metric_of q q.value)
  aggregate max (p ∷ ps) = let q = max_by p ps in some (metric_of q q.value)
  aggregate avg (p ∷ ps) = some (
      metric_of (newest p ps)
        (fl.div (fl.sum (map (λ q. q.value) (p ∷ ps))) (fl.of_ℕ (length (p ∷ ps)))))
  aggregate sum (p ∷ ps) = none
  aggregate count (p ∷ ps) = none
  aggregate std_dev (p ∷ ps) = none
  aggregate rate (p ∷ ps) = none

  -- `Regex::new(..)` and `is_match`: an expression and a name, `none` where it does not compile.
  module _ (is_match : String → String → Option Bool) where
    unfoldable pub matches_pattern : AlertCondition fl → String → Bool
    unfolding any_char metric_regex
    matches_pattern c name =
        if any_char (λ ch. ch == b'*') c.metric_name
        then or_else (is_match (metric_regex c.metric_name) name) false
        else str_eq c.metric_name name

    unfoldable pub matching_points :
        AlertCondition fl → List (TelemetryDataPoint fl) → List (TelemetryDataPoint fl)
    unfolding matches_pattern labels_match
    matching_points c points =
        keep (λ p. matches_pattern c p.metric_name && labels_match c.label_filter p.labels) points

    -- The metric of a condition, if there is one and it passes the comparison.
    abbrev pub passing :
        AlertCondition fl → Option (EvaluatedMetric fl) → Option (EvaluatedMetric fl)
    passing c none = none
    passing c (some metric) = if evaluate_point c metric.value then some metric else none

    unfoldable pub triggered :
        AlertCondition fl → List (TelemetryDataPoint fl) → Option (EvaluatedMetric fl)
    unfolding matching_points aggregate evaluate_point
    triggered c points = passing c (aggregate c.aggregation (matching_points c points))

    -- The positions of the conditions that hold, and their metrics.
    abbrev pub and_matched :
        ℕ
        → Option (EvaluatedMetric fl)
        → List ℕ × List (EvaluatedMetric fl)
        → List ℕ × List (EvaluatedMetric fl)
    and_matched i none rest = rest
    and_matched i (some metric) (is, metrics) = (i ∷ is, metric ∷ metrics)

    unfoldable pub matched_from :
        ℕ
        → List (AlertCondition fl)
        → List (TelemetryDataPoint fl)
        → List ℕ × List (EvaluatedMetric fl)
    unfolding triggered
    matched_from i [] points = ([], [])
    matched_from i (c ∷ cs) points =
        and_matched i (triggered c points) (matched_from (suc i) cs points)
