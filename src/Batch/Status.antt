-- ===== src/Batch/Status.antt =====
-- src/batch.rs, `BatchTask::update_status` and `is_finished`.
use cc_r_device_agent.Prelude.{
  ℕ, suc, ◌%◌, ◌^◌, ◌≤◌, ◌<◌, ◌≡◌, refl, ◌↔◌, Bool, true, false, ◌&&◌, some, List, [], ◌∷◌, length,
  ltb, ◌==◌, if◌then◌else◌, any, all, arith,
}
use cc_r_device_agent.Batch.Types.{
  BatchTaskStatus, BatchExecutionStatus, BatchExecutionItem, BatchTask,
}

abbrev pub is_executed : BatchExecutionItem → Bool
is_executed item = elim item.status [
  | BatchExecutionStatus.success ↦ true
  | BatchExecutionStatus.failed ↦ true
  | _ ↦ false
]

abbrev pub is_failed : BatchExecutionItem → Bool
is_failed item = elim item.status [ BatchExecutionStatus.failed ↦ true | _ ↦ false ]

-- `iter().filter(p).count()`.
abbrev pub count {ℓ} : {A : Type ℓ} → (A → Bool) → List A → ℕ
count p [] = 0
count p (x ∷ xs) = let rest = count p xs in if p x then suc rest else rest

unfoldable pub is_finished : BatchTask → Bool
is_finished t = elim t.status [
  | BatchTaskStatus.completed ↦ true
  | BatchTaskStatus.partial_failure ↦ true
  | BatchTaskStatus.failed ↦ true
  | BatchTaskStatus.cancelled ↦ true
  | _ ↦ false
]

-- The status by the numbers of executed and of all items.
abbrev pub status_of : ℕ → ℕ → Bool → BatchTaskStatus → BatchTaskStatus
status_of executed total has_failures old =
    if (executed == 0) && (total == 0)
    then BatchTaskStatus.pending
    else if executed == total
    then if has_failures then BatchTaskStatus.partial_failure else BatchTaskStatus.completed
    else if ltb executed total
    then BatchTaskStatus.running
    else old

-- `as u32` takes the remainder. The clock is read for the update and, where all items are executed, again.
unfoldable pub update_status : ℕ → ℕ → BatchTask → BatchTask
update_status now later t =
    let total = length t.execution_items % 2 ^ 32 in
    let executed = count is_executed t.execution_items % 2 ^ 32 in
    record t {
      progress = executed;
      total_items = total;
      updated_at = now;
      status = status_of executed total (any is_failed t.execution_items) t.status;
      completed_at =
          if (executed == 0) && (total == 0)
          then t.completed_at
          else if executed == total
          then some later
          else t.completed_at;
    }

count_le {ℓ} : {A : Type ℓ} (p : A → Bool) (xs : List A) → count p xs ≤ length xs
count_le p [] = omega arith
count_le p (x ∷ xs) = ground (arith, count_le p xs)

count-all {ℓ} :
    {A : Type ℓ} (p : A → Bool) (xs : List A) → (count p xs ≡ length xs) ↔ (all p xs ≡ true)
count-all p [] = (λ h. refl, λ h. refl)
count-all p (x ∷ xs) = ground (arith, count_le p xs, count-all p xs)

-- The status by the items: a failed item among executed ones makes it a partial failure, also where
-- every item failed.
abbrev pub expected : List BatchExecutionItem → BatchTaskStatus
expected [] = BatchTaskStatus.pending
expected (i ∷ is) =
    if all is_executed (i ∷ is)
    then if any is_failed (i ∷ is)
      then BatchTaskStatus.partial_failure
      else BatchTaskStatus.completed
    else BatchTaskStatus.running

status_of-expected :
    (items : List BatchExecutionItem) (old : BatchTaskStatus)
    → status_of (count is_executed items) (length items) (any is_failed items) old ≡ expected items
status_of-expected [] old = refl
status_of-expected (i ∷ is) old =
    ground (arith, count_le is_executed (i ∷ is), count-all is_executed (i ∷ is))

-- There are items, and all are executed.
abbrev pub is_complete : List BatchExecutionItem → Bool
is_complete [] = false
is_complete (i ∷ is) = all is_executed (i ∷ is)

completed-expected :
    {A : Type 0} (items : List BatchExecutionItem) (done old : A)
    → (if (count is_executed items == 0) && (length items == 0)
        then old
        else if count is_executed items == length items
        then done
        else old)
      ≡ (if is_complete items then done else old)
completed-expected [] done old = refl
completed-expected (i ∷ is) done old =
    ground (arith, count_le is_executed (i ∷ is), count-all is_executed (i ∷ is))

below-mod : (n : ℕ) → n < 2 ^ 32 → n % 2 ^ 32 ≡ n
below-mod n h = omega arith

-- For fewer than 2^32 items: an update counts the successful and failed items, the total is the
-- number of items and no less, and the status is pending without items, running while an item is
-- neither successful nor failed, and otherwise completed or, with a failed item, partial failure,
-- also if all items failed. The time of completion is written exactly if there are items and each is
-- successful or failed, and is the second reading of the clock; the time of the update is the first.
pub update_status_lem :
    (now later : ℕ) (t : BatchTask)
    → length t.execution_items < 2 ^ 32
    → let t' = update_status now later t in
      (t'.progress ≡ count is_executed t.execution_items)
      × (t'.total_items ≡ length t.execution_items)
      × (t'.progress ≤ t'.total_items)
      × (t'.status ≡ expected t.execution_items)
      × (t'.updated_at ≡ now)
      × (t'.completed_at ≡ (if is_complete t.execution_items then some later else t.completed_at))
unfolding update_status
update_status_lem now later t h =
    let counted = count_le is_executed t.execution_items in
    rw (below-mod (length t.execution_items) h) (
      rw (below-mod (count is_executed t.execution_items) (omega arith)) (
        refl,
        refl,
        counted,
        status_of-expected t.execution_items t.status,
        refl,
        completed-expected t.execution_items (some later) t.completed_at,
      ))
