-- ===== src/Alerts/History.antt =====
-- The engine as a transition system: what its history is like after any operations.
use cc_r_device_agent.Prelude.{
  ℕ, suc, ◌≤◌, ◌<◌, ◌^◌, String, ◌≡◌, refl, sym, ap, ◌∙◌, inl, inr, Bool, true, false, not, ◌||◌,
  Option, none, some, List, [], ◌∷◌, ◌++◌, arith, length, length-append, all, ltb, ◌==◌, str_eq,
  string_eq, is_some, map, Bool-cases, Option-cases, if◌then◌else◌,
}
use cc_r_device_agent.Prelude.Dict
use cc_r_device_agent.Prelude.Dict.{values}
use cc_r_device_agent.Prelude.Sort.{keep}
use mathlib.Core.Path.{subst}
use mathlib.Core.Option.{some-injective}
use cc_r_device_agent.Alerts.Rules.{
  Floats, AlertRule, AlertState, AlertCondition, Alert, EvaluationResult, TelemetryDataPoint,
  new_state,
}
use cc_r_device_agent.Alerts.Engine.{
  AlertEngine, new, add_rule, remove_rule, drop_first, push_alert, first_condition, fire_condition,
  mark_fired, fire_rule, fire_alert, update_found, update_state, evaluate_all, evaluate,
  evaluate_rule_internal, resolve_alert, resolve_first,
}
use cc_r_device_agent.Alerts.Times.{IsSpaced, times, times-resolve_first}
use cc_r_device_agent.Alerts.Pacing.{IsPaced, last_of, last_fired, evaluate_all-IsPaced}

module _ (fl : Floats) where
  -- An evaluation has the UUIDs of its alerts, the points and the time.
  pub data Op : Type 0 where
    add : AlertRule fl → Op
    remove : String → Op
    evaluate_at : (String → String) → List (TelemetryDataPoint fl) → ℕ → Op
    resolve : String → ℕ → Op

  module _ (is_match : String → String → Option Bool) where
    unfoldable pub step : Op → AlertEngine fl → AlertEngine fl
    unfolding add_rule remove_rule evaluate resolve_alert
    step (add rule) e = add_rule fl rule e
    step (remove id) e = remove_rule fl id e
    step (evaluate_at uuid_of points now) e = (evaluate fl is_match uuid_of points now e).0
    step (resolve id at) e = resolve_alert fl id at e

    unfoldable pub run : List Op → AlertEngine fl → AlertEngine fl
    unfolding step
    run [] e = e
    run (o ∷ ops) e = run ops (step o e)

  abbrev enabled_ids : AlertEngine fl → List String
  enabled_ids e = map (λ r. r.id) (keep (λ r. r.enabled) (values e.rules))

  -- The history holds no more alerts than its bound.
  abbrev pub IsBounded : ℕ → AlertEngine fl → Type 0
  IsBounded n e = (length e.recent_alerts ≤ n) × (e.max_history ≡ n)

  length-drop_first :
      (xs : List (Alert fl)) (n : ℕ) → length xs ≤ suc n → length (drop_first fl xs) ≤ n
  length-drop_first [] n h = omega arith
  length-drop_first (x ∷ xs) n h = omega (arith, h)

  push_alert-IsBounded :
      (n : ℕ) (alert : Alert fl) (e : AlertEngine fl)
      → IsBounded n e
      → IsBounded n (push_alert fl alert e)
  unfolding push_alert
  push_alert-IsBounded n alert e (h, m) =
      let l = length-append e.recent_alerts (alert ∷ []) in
      let pushed = e.recent_alerts ++ alert ∷ [] in
      let d = length-drop_first pushed n (omega (arith, l, h)) in
      elim (Bool-cases (ltb e.max_history (length pushed))) [
        | inl e' ↦ (rw e' d, m)
        | inr e' ↦ (rw e' (ground (arith, m, e')), m)
      ]

  mark_fired-IsBounded :
      (n : ℕ) (r : String) (now : ℕ) (s : Option AlertState) (e : AlertEngine fl)
      → IsBounded n e
      → IsBounded n (mark_fired fl r now s e)
  mark_fired-IsBounded n r now none e h = h
  mark_fired-IsBounded n r now (some s) e h = h

  fire_rule-IsBounded :
      (n : ℕ) (r : String) (result : EvaluationResult fl) (now : ℕ) (uuid : String)
      (e : AlertEngine fl) (rule : Option (AlertRule fl))
      → IsBounded n e
      → IsBounded n (fire_rule fl r result now uuid e rule)
  fire_rule-IsBounded n r result now uuid e none h = h
  fire_rule-IsBounded n r result now uuid e (some rule) h =
      by_condition (first_condition fl result.matched_conditions rule.conditions)
    where
      by_condition :
          (c : Option (AlertCondition fl))
          → IsBounded n (fire_condition fl r rule result now uuid e c)
      by_condition none = h
      by_condition (some c) =
          push_alert-IsBounded n _ _ (mark_fired-IsBounded n r now (Dict.get r e.states) e h)

  either-IsBounded :
      (n : ℕ) (b : Bool) (e e' : AlertEngine fl)
      → IsBounded n e
      → IsBounded n e'
      → IsBounded n (if b then e else e')
  either-IsBounded n true e e' h h' = h
  either-IsBounded n false e e' h h' = h'

  update_found-IsBounded :
      (n : ℕ) (r : String) (result : EvaluationResult fl) (now : ℕ) (uuid : String)
      (e : AlertEngine fl) (s : Option AlertState)
      → IsBounded n e
      → IsBounded n (update_found fl r result now uuid e s)
  unfolding fire_alert
  update_found-IsBounded n r result now uuid e none h = h
  update_found-IsBounded n r result now uuid e (some s) h =
      either-IsBounded n _ _ _ (fire_rule-IsBounded n r result now uuid _ (Dict.get r e.rules) h) h

  module _ (is_match : String → String → Option Bool) where
    evaluate_all-IsBounded :
        (n : ℕ) (uuid_of : String → String) (ids : List String)
        (points : List (TelemetryDataPoint fl)) (now : ℕ) (e : AlertEngine fl)
        → IsBounded n e
        → IsBounded n (evaluate_all fl is_match uuid_of ids points now e).0
    unfolding evaluate_all update_state
    evaluate_all-IsBounded n uuid_of [] points now e h = h
    evaluate_all-IsBounded n uuid_of (r ∷ ids) points now e h =
        let result = evaluate_rule_internal fl is_match r points now e in
        evaluate_all-IsBounded n uuid_of ids points now (update_state fl r result now (uuid_of r) e)
          (update_found-IsBounded n r result now (uuid_of r) e (Dict.get r e.states) h)

    length-resolve_first :
        (id : String) (at : ℕ) (xs : List (Alert fl))
        → length (resolve_first fl id at xs) ≡ length xs
    length-resolve_first id at [] = refl
    length-resolve_first id at (a ∷ xs) = elim (Bool-cases (str_eq a.id id)) [
      | inl e ↦ rw e refl
      | inr e ↦ rw e (ap suc (length-resolve_first id at xs))
    ]

    step-IsBounded :
        (n : ℕ) (o : Op) (e : AlertEngine fl) → IsBounded n e → IsBounded n (step is_match o e)
    unfolding step add_rule remove_rule evaluate resolve_alert
    step-IsBounded n (add rule) e h = h
    step-IsBounded n (remove id) e h = h
    step-IsBounded n (evaluate_at uuid_of points now) e h =
        evaluate_all-IsBounded n uuid_of (enabled_ids e) points now e h
    step-IsBounded n (resolve id at) e (h, m) =
        (omega (arith, h, length-resolve_first id at e.recent_alerts), m)

    run-IsBounded :
        (n : ℕ) (ops : List Op) (e : AlertEngine fl)
        → IsBounded n e
        → IsBounded n (run is_match ops e)
    unfolding run
    run-IsBounded n [] e h = h
    run-IsBounded n (o ∷ ops) e h = run-IsBounded n ops (step is_match o e) (step-IsBounded n o e h)

    -- After any operations on a new engine, its history holds at most 1000 alerts.
    pub run-bounded : (ops : List Op) → length (run is_match ops (new fl)).recent_alerts ≤ 1000
    unfolding new
    run-bounded ops = (run-IsBounded 1000 ops (new fl) (omega arith, refl)).0

    -- The operation neither takes the rule away nor gives it another cooldown.
    abbrev pub keeps : String → ℕ → Op → Bool
    keeps id cd (add rule) = not (str_eq rule.id id) || (rule.cooldown_seconds == cd)
    keeps id cd (remove other) = not (str_eq other id)
    keeps id cd _ = true

    module _ (id : String) (cd : ℕ) (fits : cd < 2 ^ 63) where
      add-last :
          (rule : AlertRule fl) (states : Dict.Dict String AlertState)
          → last_of fl id cd (
              Dict.get id (
                if is_some (Dict.get rule.id states)
                then states
                else Dict.insert rule.id (new_state rule.id) states))
            ≡ last_of fl id cd (Dict.get id states)
      unfolding new_state
      add-last rule states = elim (Option-cases (Dict.get rule.id states)) [
        | inr (s, there) ↦ rw there refl
        | inl absent ↦ rw absent (elim (Bool-cases (string_eq.same rule.id id)) [
          | inr ne ↦
              ap (last_of fl id cd) (Dict.get-insert_ne rule.id id (new_state rule.id) states ne)
          | inl e ↦
              let at : rule.id ≡ id = (string_eq.same_iff rule.id id).0 e in
              let before : Dict.get id states ≡ none =
                ap (λ x. Dict.get x states) (sym at) ∙ absent in
              let after : Dict.get id (Dict.insert rule.id (new_state rule.id) states)
                  ≡ some (new_state rule.id) =
                ap (λ x. Dict.get x (Dict.insert rule.id (new_state rule.id) states)) (sym at)
                ∙ Dict.get-insert_self rule.id (new_state rule.id) states in
              ap (last_of fl id cd) after ∙ sym (ap (last_of fl id cd) before)
        ])
      ]

      add-cooldown :
          (rule rule' : AlertRule fl) (e : AlertEngine fl)
          → keeps id cd (add rule) ≡ true
          → IsPaced fl id cd e
          → Dict.get id (Dict.insert rule.id rule e.rules) ≡ some rule'
          → rule'.cooldown_seconds ≡ cd
      add-cooldown rule rule' e k p found = elim (Bool-cases (string_eq.same rule.id id)) [
        | inr ne ↦ p.cooldown rule' (sym (Dict.get-insert_ne rule.id id rule e.rules ne) ∙ found)
        | inl same ↦
            let at : rule.id ≡ id = (string_eq.same_iff rule.id id).0 same in
            let here : Dict.get id (Dict.insert rule.id rule e.rules) ≡ some rule =
              ap (λ x. Dict.get x (Dict.insert rule.id rule e.rules)) (sym at)
              ∙ Dict.get-insert_self rule.id rule e.rules in
            let one = some-injective rule rule' (sym here ∙ found) in
            let kept : rule.cooldown_seconds ≡ cd = ground (arith, k, same) in
            omega (arith, ap (λ x. x.cooldown_seconds) one, kept)
      ]

      step-IsPaced :
          (o : Op) (e : AlertEngine fl)
          → keeps id cd o ≡ true
          → IsPaced fl id cd e
          → IsPaced fl id cd (step is_match o e)
      unfolding step add_rule remove_rule evaluate resolve_alert
      step-IsPaced (add rule) e k p = record {
        cooldown = λ rule' found. add-cooldown rule rule' e k p found;
        spaced =
            subst (IsSpaced cd (times fl id e.recent_alerts)) (sym (add-last rule e.states))
              p.spaced;
      }
      step-IsPaced (remove other) e k p =
          let ne : str_eq other id ≡ false = ground (arith, k) in
          record {
            cooldown = λ rule found.
                p.cooldown rule (sym (Dict.get-remove other id e.rules ∙ rw ne refl) ∙ found);
            spaced =
                subst (λ o. IsSpaced cd (times fl id e.recent_alerts) (last_of fl id cd o))
                  (sym (Dict.get-remove other id e.states ∙ rw ne refl)) p.spaced;
          }
      step-IsPaced (evaluate_at uuid_of points now) e k p =
          evaluate_all-IsPaced fl id cd fits is_match uuid_of (enabled_ids e) points now e p
      step-IsPaced (resolve alert_id at) e k p = record {
        cooldown = p.cooldown;
        spaced =
            subst (λ ts. IsSpaced cd ts (last_fired fl id cd e))
              (sym (times-resolve_first fl id alert_id at e.recent_alerts)) p.spaced;
      }

      run-IsPaced :
          (ops : List Op) (e : AlertEngine fl)
          → all (keeps id cd) ops ≡ true
          → IsPaced fl id cd e
          → IsPaced fl id cd (run is_match ops e)
      unfolding run
      run-IsPaced [] e k p = p
      run-IsPaced (o ∷ ops) e k p =
          run-IsPaced ops (step is_match o e) (ground (arith, k))
            (step-IsPaced o e (ground (arith, k)) p)

      -- For a cooldown of fewer than 2^63 seconds: on a new engine, and as long as a rule is not taken
      -- away nor given another cooldown, its alerts in the history were fired at least its cooldown
      -- apart, in whole seconds.
      pub run-IsSpaced :
          (ops : List Op)
          → all (keeps id cd) ops ≡ true
          → let e = run is_match ops (new fl) in
            IsSpaced cd (times fl id e.recent_alerts) (last_fired fl id cd e)
      unfolding new Dict.get
      run-IsSpaced ops k =
          (run-IsPaced ops (new fl) k
            (record { cooldown = λ rule found. absurd (cc); spaced = tt })).spaced
