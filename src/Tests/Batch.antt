-- ===== src/Tests/Batch.antt =====
-- Batch tasks on concrete items.
use cc_r_device_agent.Prelude.{
  if◌then◌else◌, true, false, ◌≡◌, ◌≤◌, refl, none, some, List, [], ◌∷◌, map, length, get_elem?,
  arith,
}
use cc_r_device_agent.Batch.Types.{
  BatchTaskStatus, BatchExecutionStatus, BatchExecutionItem, BatchTask, limited_parallel, parallel,
}
use cc_r_device_agent.Batch.Target.{matches}
use cc_r_device_agent.Batch.Types.{by_pattern}
use cc_r_device_agent.Batch.Order.{determine_execution_order}
use cc_r_device_agent.Batch.Split.{flatten, order_covers_items}
use cc_r_device_agent.Batch.Status.{
  update_status, count, is_executed, expected, is_complete, update_status_lem,
}

abbrev item : BatchExecutionStatus → BatchExecutionItem
item s = record { device_id = "d"; script_id = "s"; parameters = []; status = s }

abbrev five : List BatchExecutionItem
five =
    item BatchExecutionStatus.success
    ∷ item BatchExecutionStatus.failed
    ∷ item BatchExecutionStatus.running
    ∷ item BatchExecutionStatus.skipped
    ∷ item BatchExecutionStatus.pending
    ∷ []

abbrev task : List BatchExecutionItem → BatchTask
task items = record {
  id = "t";
  name = "reboot all";
  description = none;
  target_selector = by_pattern "dev-";
  execution_policy = limited_parallel 2;
  script_id = "s";
  script_content = "reboot";
  default_parameters = [];
  execution_items = items;
  status = BatchTaskStatus.pending;
  progress = 0;
  total_items = 0;
  created_at = 0;
  updated_at = 0;
  started_at = none;
  completed_at = none;
  created_by = none;
}

five_by_two :
    determine_execution_order five (limited_parallel 2)
    ≡ (0 ∷ 1 ∷ []) ∷ (2 ∷ 3 ∷ []) ∷ (4 ∷ []) ∷ []
unfolding determine_execution_order
five_by_two = refl

pattern_matches : matches (by_pattern "dev-") "dev-1" [] [] ≡ true
unfolding matches
pattern_matches = refl

pattern_refuses : matches (by_pattern "dev-") "device" [] [] ≡ false
unfolding matches
pattern_refuses = refl

-- No items make one empty batch under the parallel policy.
none_parallel : determine_execution_order [] parallel ≡ [] ∷ []
unfolding determine_execution_order
none_parallel = refl

-- Only failures, and the status is not `failed`.
all_failed :
    (update_status 5 6 (task (item BatchExecutionStatus.failed ∷ []))).status
    ≡ BatchTaskStatus.partial_failure
unfolding update_status
all_failed = refl

-- A skipped item leaves the task running.
skipped_runs :
    (update_status 5 6
      (task (item BatchExecutionStatus.success ∷ item BatchExecutionStatus.skipped ∷ []))).status
    ≡ BatchTaskStatus.running
unfolding update_status
skipped_runs = refl

order_covers_items_example :
    map (get_elem? five) (flatten (determine_execution_order five (limited_parallel 2)))
    ≡ map some five
order_covers_items_example = order_covers_items five (limited_parallel 2)

update_status_lem_example :
    let t = update_status 5 6 (task five) in
    (t.progress ≡ count is_executed five)
    × (t.total_items ≡ length five)
    × (t.progress ≤ t.total_items)
    × (t.status ≡ expected five)
    × (t.updated_at ≡ 5)
    × (t.completed_at ≡ (if is_complete five then some 6 else (task five).completed_at))
update_status_lem_example = update_status_lem 5 6 (task five) (omega arith)
