-- ===== src/Batch/Types.antt =====
-- The data of src/batch.rs. The result of an item is that of the script engine, which nothing here
-- reads, and is left out. A UUID is a text, a time a number.
use cc_r_device_agent.Prelude.{ℕ, String, Option, none, some, List}

pub data BatchTaskStatus : Type 0 where
  pending running completed partial_failure failed cancelled : BatchTaskStatus

pub data BatchExecutionStatus : Type 0 where
  pending running success failed skipped : BatchExecutionStatus

-- Which devices a task is for.
pub data TargetSelector : Type 0 where
  all_devices : TargetSelector
  by_ids : List String → TargetSelector
  by_pattern by_tag by_group : String → TargetSelector

pub data ExecutionPolicy : Type 0 where
  parallel sequential : ExecutionPolicy
  limited_parallel : ℕ → ExecutionPolicy
  batch_with_delay : ℕ → ℕ → ExecutionPolicy

unfoldable pub max_concurrency : ExecutionPolicy → Option ℕ
max_concurrency parallel = none
max_concurrency sequential = some 1
max_concurrency (limited_parallel n) = some n
max_concurrency (batch_with_delay batch_size delay_ms) = some batch_size

pub record BatchParameterValue : Type 0 where
  pub name : String
  pub value : String

pub record BatchExecutionItem : Type 0 where
  pub device_id : String
  pub script_id : String
  pub parameters : List BatchParameterValue
  pub status : BatchExecutionStatus

pub record BatchTask : Type 0 where
  pub id : String
  pub name : String
  pub description : Option String
  pub target_selector : TargetSelector
  pub execution_policy : ExecutionPolicy
  pub script_id : String
  pub script_content : String
  pub default_parameters : List BatchParameterValue
  pub execution_items : List BatchExecutionItem
  pub status : BatchTaskStatus
  pub progress : ℕ
  pub total_items : ℕ
  pub created_at : ℕ
  pub updated_at : ℕ
  pub started_at : Option ℕ
  pub completed_at : Option ℕ
  pub created_by : Option String
