-- ===== src/Batch/Split.antt =====
-- The batches of src/batch.rs against the items: every item once and in order, and how large the
-- batches are.
use Prim.Native.Nat.{max}
use mathlib.Core.Path.{subst}
use mathlib.Core.List.{append_assoc, append-nil}
use cc_r_device_agent.Prelude.{
  ℕ, suc, ◌≤◌, ◌<◌, ◌≡◌, refl, ap, ◌∙◌, some, List, [], ◌∷◌, ◌++◌, map, length, leb, arith,
  get_elem?, length-append, Bool-cases, inl, inr,
}
use cc_r_device_agent.Batch.Types.{
  ExecutionPolicy, parallel, sequential, limited_parallel, batch_with_delay, BatchExecutionItem,
  max_concurrency,
}
use cc_r_device_agent.Batch.Order.{indices, last_batch, split_batches, determine_execution_order}

-- What is executed, batch after batch.
abbrev pub flatten {ℓ} : {A : Type ℓ} → List (List A) → List A
flatten [] = []
flatten (b ∷ bs) = b ++ flatten bs

-- All batches but the last have `w` items, and the last has at least one and at most `w`.
unfoldable pub IsFilled : ℕ → List (List ℕ) → Type 0
IsFilled w [] = Unit
IsFilled w (b ∷ []) = (1 ≤ length b) × (length b ≤ w)
IsFilled w (b ∷ c ∷ bs) = (length b ≡ w) × IsFilled w (c ∷ bs)

flatten-last_batch : (is : List ℕ) → flatten (last_batch is) ≡ is ++ []
flatten-last_batch [] = refl
flatten-last_batch (i ∷ is) = refl

flatten-split_batches :
    (n : ℕ) (current is : List ℕ) → flatten (split_batches n current is) ≡ current ++ is
unfolding split_batches
flatten-split_batches n current [] = flatten-last_batch current
flatten-split_batches n current (i ∷ is) =
    elim (Bool-cases (leb n (length (current ++ (i ∷ []))))) [
      | inl e ↦
          rw (e, flatten, split_batches)
            (ap (λ x. (current ++ (i ∷ [])) ++ x) (flatten-split_batches n [] is)
              ∙ append_assoc current (i ∷ []) is)
      | inr e ↦
          rw (e, flatten, split_batches)
            (flatten-split_batches n (current ++ (i ∷ [])) is ∙ append_assoc current (i ∷ []) is)
    ]

flatten-singletons : (is : List ℕ) → flatten (map (λ i. i ∷ []) is) ≡ is
flatten-singletons [] = refl
flatten-singletons (i ∷ is) = ap (λ x. i ∷ x) (flatten-singletons is)

flatten-order :
    (items : List BatchExecutionItem) (policy : ExecutionPolicy)
    → flatten (determine_execution_order items policy) ≡ indices 0 items
unfolding determine_execution_order
flatten-order items parallel = append-nil (indices 0 items)
flatten-order items sequential = flatten-singletons (indices 0 items)
flatten-order items (limited_parallel n) = flatten-split_batches n [] (indices 0 items)
flatten-order items (batch_with_delay n d) = flatten-split_batches n [] (indices 0 items)

map-indices-suc {ℓ κ} :
    {A : Type ℓ} {B : Type κ} (f : ℕ → B) (k : ℕ) (xs : List A)
    → map f (indices (suc k) xs) ≡ map (λ i. f (suc i)) (indices k xs)
unfolding indices
map-indices-suc f k [] = refl
map-indices-suc f k (x ∷ xs) = ap (λ z. f (suc k) ∷ z) (map-indices-suc f (suc k) xs)

items_at_indices {ℓ} : {A : Type ℓ} (xs : List A) → map (get_elem? xs) (indices 0 xs) ≡ map some xs
unfolding indices
items_at_indices [] = refl
items_at_indices (x ∷ xs) =
    ap (λ z. some x ∷ z) (map-indices-suc (get_elem? (x ∷ xs)) 0 xs ∙ items_at_indices xs)

-- Under every policy the batches, one after another, name every item exactly once and in the order
-- of the items.
pub order_covers_items :
    (items : List BatchExecutionItem) (policy : ExecutionPolicy)
    → map (get_elem? items) (flatten (determine_execution_order items policy)) ≡ map some items
order_covers_items items policy =
    ap (map (get_elem? items)) (flatten-order items policy) ∙ items_at_indices items

IsFilled-cons :
    (w : ℕ) (b : List ℕ) (bs : List (List ℕ))
    → length b ≡ w
    → 1 ≤ w
    → IsFilled w bs
    → IsFilled w (b ∷ bs)
unfolding IsFilled
IsFilled-cons w b [] e p h = (omega arith, omega arith)
IsFilled-cons w b (c ∷ bs) e p h = (e, h)

split_batches-IsFilled :
    (n : ℕ) (current is : List ℕ)
    → length current < max 1 n
    → IsFilled (max 1 n) (split_batches n current is)
unfolding split_batches IsFilled
split_batches-IsFilled n [] [] h = tt
split_batches-IsFilled n (c ∷ cs) [] h = (omega arith, omega arith)
split_batches-IsFilled n current (i ∷ is) h =
    let grown = length-append current (i ∷ []) in
    elim (Bool-cases (leb n (length (current ++ (i ∷ []))))) [
      | inl e ↦
          rw (e, IsFilled, split_batches)
            (IsFilled-cons (max 1 n) (current ++ (i ∷ [])) (split_batches n [] is)
              (ground (arith, grown)) (omega arith) (split_batches-IsFilled n [] is (omega arith)))
      | inr e ↦
          rw (e, IsFilled, split_batches)
            (split_batches-IsFilled n (current ++ (i ∷ [])) is (ground (arith, grown)))
    ]

singletons-IsFilled : (is : List ℕ) → IsFilled 1 (map (λ i. i ∷ []) is)
unfolding IsFilled
singletons-IsFilled [] = tt
singletons-IsFilled (i ∷ is) =
    IsFilled-cons 1 (i ∷ []) (map (λ j. j ∷ []) is) refl (omega arith) (singletons-IsFilled is)

same_limit : (m n : ℕ) → some m ≡ some n → m ≡ n
same_limit m n h = cc h

-- Under a policy with a limit, a limit of 0 counting as 1, all batches but the last have as many
-- items as the limit, and the last has at least one and no more than the limit.
pub order-IsFilled :
    (items : List BatchExecutionItem) (policy : ExecutionPolicy) (n : ℕ)
    → max_concurrency policy ≡ some n
    → IsFilled (max 1 n) (determine_execution_order items policy)
unfolding determine_execution_order max_concurrency
order-IsFilled items parallel n h = absurd (ground arith)
order-IsFilled items sequential n h =
    subst (λ k. IsFilled (max 1 k) (determine_execution_order items sequential)) (same_limit 1 n h)
      (singletons-IsFilled (indices 0 items))
order-IsFilled items (limited_parallel m) n h =
    subst (λ k. IsFilled (max 1 k) (split_batches m [] (indices 0 items))) (same_limit m n h)
      (split_batches-IsFilled m [] (indices 0 items) (omega arith))
order-IsFilled items (batch_with_delay m d) n h =
    subst (λ k. IsFilled (max 1 k) (split_batches m [] (indices 0 items))) (same_limit m n h)
      (split_batches-IsFilled m [] (indices 0 items) (omega arith))
