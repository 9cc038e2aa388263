-- ===== src/Prelude/Sort.antt =====
-- Rust's stable `sort_by` and SQL's `ORDER BY`, by a test for "not after"; `take` and `skip`.
use Prim.Native.Nat.{ℕ, zero, suc, ◌≤◌}
use mathlib.Core.Path.{◌≡◌, refl, ap}
use mathlib.Core.Logic.{inl, inr}
use mathlib.Core.Bool.{Bool, true, false}
use mathlib.Core.List.{List, [], ◌∷◌, ◌++◌, Perm}
use mathlib.Core.List.Perm
use native.Mathlib.Omega.{arith}
use cc_r_device_agent.Prelude.Tests.{Bool-cases, if◌then◌else◌}
use cc_r_device_agent.Prelude.Lists.{length}

module _ {ℓ} {A : Type ℓ} where
  abbrev pub take : ℕ → List A → List A
  take zero xs = []
  take (suc n) [] = []
  take (suc n) (x ∷ xs) = x ∷ take n xs

  abbrev pub drop : ℕ → List A → List A
  drop zero xs = xs
  drop (suc n) [] = []
  drop (suc n) (x ∷ xs) = drop n xs

  pub take-drop : (n : ℕ) (xs : List A) → take n xs ++ drop n xs ≡ xs
  take-drop zero xs = refl
  take-drop (suc n) [] = refl
  take-drop (suc n) (x ∷ xs) = ap (λ z. x ∷ z) (take-drop n xs)

  pub length-take_le : (n : ℕ) (xs : List A) → length (take n xs) ≤ n
  length-take_le zero xs = omega arith
  length-take_le (suc n) [] = omega arith
  length-take_le (suc n) (x ∷ xs) = omega (arith, length-take_le n xs)

  -- `iter().filter(p)`.
  unfoldable pub keep : (A → Bool) → List A → List A
  keep p [] = []
  keep p (x ∷ xs) = let rest = keep p xs in if p x then x ∷ rest else rest

module _ {ℓ} {A : Type ℓ} (le : A → A → Bool) where
  unfoldable pub insert_sorted : A → List A → List A
  insert_sorted x [] = x ∷ []
  insert_sorted x (y ∷ ys) =
      let rest = insert_sorted x ys in if le x y then x ∷ y ∷ ys else y ∷ rest

  -- The first of two equal elements stays first.
  unfoldable pub sort_by : List A → List A
  unfolding insert_sorted
  sort_by [] = []
  sort_by (x ∷ xs) = insert_sorted x (sort_by xs)

  -- Each element is not after the next.
  abbrev pub is_sorted : List A → Bool
  is_sorted [] = true
  is_sorted (x ∷ []) = true
  is_sorted (x ∷ y ∷ ys) = if le x y then is_sorted (y ∷ ys) else false

  insert_sorted-perm : (x : A) (ys : List A) → Perm (insert_sorted x ys) (x ∷ ys)
  unfolding insert_sorted
  insert_sorted-perm x [] = Perm.refl _
  insert_sorted-perm x (y ∷ ys) = elim (Bool-cases (le x y)) [
    | inl e ↦ rw e (Perm.refl _)
    | inr e ↦ rw e (Perm.trans (Perm.cons y (insert_sorted-perm x ys)) (Perm.swap x y ys))
  ]

  pub sort_by-perm : (xs : List A) → Perm (sort_by xs) xs
  unfolding sort_by
  sort_by-perm [] = Perm.refl _
  sort_by-perm (x ∷ xs) =
      Perm.trans (insert_sorted-perm x (sort_by xs)) (Perm.cons x (sort_by-perm xs))

  -- A sorted list is left as it is.
  pub sort_by_sorted : (xs : List A) → is_sorted xs ≡ true → sort_by xs ≡ xs
  unfolding sort_by insert_sorted
  sort_by_sorted [] h = refl
  sort_by_sorted (x ∷ []) h = refl
  sort_by_sorted (x ∷ y ∷ ys) h = elim (Bool-cases (le x y)) [
    | inl e ↦ rw (sort_by_sorted (y ∷ ys) (ground arith)) (rw e)
    | inr e ↦ absurd (ground arith)
  ]

  module _ (total : (x y : A) → le x y ≡ false → le y x ≡ true) where
    insert_sorted-is_sorted :
        (x : A) (ys : List A) → is_sorted ys ≡ true → is_sorted (insert_sorted x ys) ≡ true
    unfolding insert_sorted
    insert_sorted-is_sorted x [] h = refl
    insert_sorted-is_sorted x (y ∷ []) h = ground (arith, total x y)
    insert_sorted-is_sorted x (y ∷ z ∷ zs) h =
        ground (arith, total x y, insert_sorted-is_sorted x (z ∷ zs))

    pub sort_by-is_sorted : (xs : List A) → is_sorted (sort_by xs) ≡ true
    unfolding sort_by
    sort_by-is_sorted [] = refl
    sort_by-is_sorted (x ∷ xs) = insert_sorted-is_sorted x (sort_by xs) (sort_by-is_sorted xs)
