-- ===== src/Alerts/Rules.antt =====
-- src/alert_engine.rs: the types of the rules, their states and the alerts; and the telemetry points
-- of src/plugins.rs. The numbers f64 and the crate `regex` are parameters.
use Prim.Native.Nat.{Ordering}
use cc_r_device_agent.Prelude.{ℕ, String, Bool, Option, none, List}
use cc_r_device_agent.Prelude.Dict.{Dict}

-- What is used of f64: its comparisons, `-`, `/`, `abs`, the sum of an iterator, the cast of a length.
pub record Floats : Type 1 where
  pub F : Type 0
  pub zero : F
  pub epsilon : F
  pub lt : F → F → Bool
  pub le : F → F → Bool
  pub sub : F → F → F
  pub div : F → F → F
  pub abs : F → F
  pub sum : List F → F
  pub of_ℕ : ℕ → F
  pub partial_cmp : F → F → Option Ordering

pub data AlertSeverity : Type 0 where
  info warning critical : AlertSeverity

unfoldable pub severity_text : AlertSeverity → String
severity_text info = "info"
severity_text warning = "warning"
severity_text critical = "critical"

pub data ComparisonOp : Type 0 where
  gt gte lt lte eq neq : ComparisonOp

pub data AggregationFunc : Type 0 where
  latest min max avg sum count std_dev rate : AggregationFunc

pub data LogicalOp : Type 0 where
  all_of any_of : LogicalOp

pub data AlertAction : Type 0 where
  log : String → AlertAction
  mqtt : String → Option String → AlertAction
  script : String → ℕ → AlertAction
  webhook : String → Dict String String → AlertAction

-- A time is a number of nanoseconds since the epoch.
pub record AlertState : Type 0 where
  pub rule_id : String
  pub is_firing : Bool
  pub firing_since : Option ℕ
  pub last_fired_at : Option ℕ
  pub fire_count : ℕ
  pub last_evaluated_at : Option ℕ

unfoldable pub new_state : String → AlertState
new_state rule_id = record {
  rule_id = rule_id;
  is_firing = Bool.false;
  firing_since = none;
  last_fired_at = none;
  fire_count = 0;
  last_evaluated_at = none;
}

module _ (fl : Floats) where
  pub record AlertCondition : Type 0 where
    pub metric_name : String
    pub label_filter : Dict String String
    pub operator : ComparisonOp
    pub threshold : fl.F
    pub aggregation : AggregationFunc
    pub severity : AlertSeverity

  pub record DurationRequirement : Type 0 where
    pub for_seconds : ℕ
    pub min_percentage : fl.F

  pub record AlertRule : Type 0 where
    pub id : String
    pub name : String
    pub description : Option String
    pub enabled : Bool
    pub conditions : List AlertCondition
    pub condition_op : LogicalOp
    pub duration : Option DurationRequirement
    pub cooldown_seconds : ℕ
    pub actions : List AlertAction
    pub severity : Option AlertSeverity
    pub tags : Dict String String
    pub created_at : ℕ
    pub updated_at : ℕ

  pub record Alert : Type 0 where
    pub id : String
    pub rule_id : String
    pub rule_name : String
    pub severity : AlertSeverity
    pub message : String
    pub description : Option String
    pub metric_name : String
    pub metric_value : fl.F
    pub threshold : fl.F
    pub operator : ComparisonOp
    pub labels : Dict String String
    pub fired_at : ℕ
    pub resolved_at : Option ℕ
    pub tags : Dict String String

  pub record EvaluatedMetric : Type 0 where
    pub metric_name : String
    pub value : fl.F
    pub labels : Dict String String
    pub timestamp : ℕ

  pub record EvaluationResult : Type 0 where
    pub rule_id : String
    pub is_matched : Bool
    pub matched_conditions : List ℕ
    pub triggering_metrics : List EvaluatedMetric
    pub evaluated_at : ℕ

  pub record TelemetryDataPoint : Type 0 where
    pub metric_name : String
    pub value : fl.F
    pub unit : String
    pub timestamp : ℕ
    pub labels : Dict String String
