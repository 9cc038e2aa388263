-- ===== src/Alerts/Matching.antt =====
-- The evaluation of a rule agrees with the plain reading of its conditions.
use cc_r_device_agent.Prelude.{
  ℕ, suc, ◌<◌, String, ◌≡◌, refl, ap, ◌∙◌, ◌⊎◌, inl, inr, Bool, true, false, not, Option, List, [],
  ◌∷◌, arith, any, all, is_some, Option-cases,
}
use cc_r_device_agent.Alerts.Rules.{
  Floats, LogicalOp, all_of, any_of, AlertCondition, AlertRule, TelemetryDataPoint,
}
use cc_r_device_agent.Alerts.Conditions.{
  contains, all_matched, check_logical_op, is_empty, triggered, and_matched, matched_from,
}
use cc_r_device_agent.Alerts.Engine.{evaluate_rule}

all_matched-skip :
    {A : Type 0} (i j : ℕ) (matched : List ℕ) (cs : List A)
    → i < j
    → all_matched (i ∷ matched) j cs ≡ all_matched matched j cs
unfolding all_matched
all_matched-skip i j matched [] lt = refl
all_matched-skip i j matched (c ∷ cs) lt = ground (arith, all_matched-skip i (suc j) matched cs)

module _ (fl : Floats) (is_match : String → String → Option Bool)
    (points : List (TelemetryDataPoint fl)) where
  abbrev pub holds : AlertCondition fl → Bool
  holds c = is_some (triggered fl is_match c points)

  -- Whether a rule's conditions are met, read off the conditions.
  abbrev pub meets : LogicalOp → List (AlertCondition fl) → Bool
  meets op [] = false
  meets all_of (c ∷ cs) = all holds (c ∷ cs)
  meets any_of (c ∷ cs) = any holds (c ∷ cs)

  abbrev positions : ℕ → List (AlertCondition fl) → List ℕ
  positions i cs = (matched_from fl is_match i cs points).0

  positions-cons :
      (i : ℕ) (c : AlertCondition fl) (cs : List (AlertCondition fl))
      → ((holds c ≡ true) × (positions i (c ∷ cs) ≡ i ∷ positions (suc i) cs))
        ⊎ ((holds c ≡ false) × (positions i (c ∷ cs) ≡ positions (suc i) cs))
  unfolding matched_from
  positions-cons i c cs =
      let rest = matched_from fl is_match (suc i) cs points in
      elim (Option-cases (triggered fl is_match c points)) [
        | inl e ↦ inr (ap is_some e, ap (λ t. (and_matched fl is_match i t rest).0) e)
        | inr (m, e) ↦ inl (ap is_some e, ap (λ t. (and_matched fl is_match i t rest).0) e)
      ]

  not-contains :
      (i j : ℕ) (cs : List (AlertCondition fl)) → i < j → contains i (positions j cs) ≡ false
  unfolding matched_from
  not-contains i j [] lt = refl
  not-contains i j (c ∷ cs) lt = elim (positions-cons j c cs) [
    | inl (h, e) ↦ rw e (ground (arith, not-contains i (suc j) cs))
    | inr (h, e) ↦ rw e (not-contains i (suc j) cs (omega arith))
  ]

  all_matched-positions :
      (i : ℕ) (cs : List (AlertCondition fl)) → all_matched (positions i cs) i cs ≡ all holds cs
  unfolding all_matched
  all_matched-positions i [] = refl
  all_matched-positions i (c ∷ cs) = elim (positions-cons i c cs) [
    | inl (h, e) ↦
        let ih =
          all_matched-skip i (suc i) (positions (suc i) cs) cs (omega arith)
          ∙ all_matched-positions (suc i) cs in
        ap (λ m. all_matched m i (c ∷ cs)) e ∙ found (ih ∙ rw h refl)
    | inr (h, e) ↦
        ap (λ m. all_matched m i (c ∷ cs)) e
        ∙ rw (not-contains i (suc i) cs (omega arith)) (rw h refl)
  ]
    where
      found :
          {b : Bool}
          → all_matched (i ∷ positions (suc i) cs) (suc i) cs ≡ b
          → all_matched (i ∷ positions (suc i) cs) i (c ∷ cs) ≡ b
      found h = ground (arith, h)

  is_empty-positions :
      (i : ℕ) (cs : List (AlertCondition fl)) → not (is_empty (positions i cs)) ≡ any holds cs
  unfolding matched_from
  is_empty-positions i [] = refl
  is_empty-positions i (c ∷ cs) = elim (positions-cons i c cs) [
    | inl (h, e) ↦ rw e (rw h refl)
    | inr (h, e) ↦ rw e (rw h (is_empty-positions (suc i) cs))
  ]

  -- A rule is matched exactly if its conditions are met: all of them, or any of them, and there is one.
  pub evaluate_rule-meets :
      (rule : AlertRule fl) (now : ℕ)
      → (evaluate_rule fl is_match rule points now).is_matched
        ≡ meets rule.condition_op rule.conditions
  unfolding evaluate_rule check_logical_op
  evaluate_rule-meets rule now = by_cases rule.conditions rule.condition_op
    where
      by_cases :
          (cs : List (AlertCondition fl)) (op : LogicalOp)
          → check_logical_op (positions 0 cs) cs op ≡ meets op cs
      by_cases [] op = refl
      by_cases (c ∷ cs) all_of = all_matched-positions 0 (c ∷ cs)
      by_cases (c ∷ cs) any_of = is_empty-positions 0 (c ∷ cs)
