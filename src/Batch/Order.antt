-- ===== src/Batch/Order.antt =====
-- src/batch.rs, `BatchExecutor`: the batches of indices in which the items are executed.
use cc_r_device_agent.Prelude.{ℕ, suc, true, false, List, [], ◌∷◌, ◌++◌, map, length, leb}
use cc_r_device_agent.Batch.Types.{
  ExecutionPolicy, parallel, sequential, limited_parallel, batch_with_delay, BatchExecutionItem,
}

-- The indices of `iter().enumerate()`, from a first one on.
unfoldable pub indices {ℓ} : {A : Type ℓ} → ℕ → List A → List ℕ
indices k [] = []
indices k (x ∷ xs) = k ∷ indices (suc k) xs

-- What is pushed after the loop.
abbrev pub last_batch : List ℕ → List (List ℕ)
last_batch [] = []
last_batch (i ∷ is) = (i ∷ is) ∷ []

-- The loop over the indices with its current batch.
unfoldable pub split_batches : ℕ → List ℕ → List ℕ → List (List ℕ)
split_batches limit current [] = last_batch current
split_batches limit current (i ∷ is) =
    let grown = current ++ (i ∷ []) in
    elim (leb limit (length grown)) [
      | true ↦ grown ∷ split_batches limit [] is
      | false ↦ split_batches limit grown is
    ]

unfoldable pub determine_execution_order : List BatchExecutionItem → ExecutionPolicy → List (List ℕ)
unfolding indices split_batches
determine_execution_order items parallel = indices 0 items ∷ []
determine_execution_order items sequential = map (λ i. i ∷ []) (indices 0 items)
determine_execution_order items (limited_parallel n) = split_batches n [] (indices 0 items)
determine_execution_order items (batch_with_delay n delay_ms) = split_batches n [] (indices 0 items)

unfoldable pub get_batch_delay_ms : ExecutionPolicy → ℕ
get_batch_delay_ms (batch_with_delay n delay_ms) = delay_ms
get_batch_delay_ms _ = 0
