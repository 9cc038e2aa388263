-- ===== src/Alerts/Pacing.antt =====
-- The history is bounded, and a rule does not fire again within its cooldown.
use mathlib.Core.Path.{subst}
use mathlib.Core.List.{append-nil}
use cc_r_device_agent.Prelude.{
  ℕ, ◌+◌, ◌≤◌, ◌<◌, ◌^◌, String, ◌≡◌, ◌⊎◌, refl, sym, ap, ◌∙◌, inl, inr, Bool, true, false, not,
  ◌&&◌, Option, none, some, List, [], ◌∷◌, ◌++◌, arith, length, ltb, string_eq, if◌then◌else◌,
  Bool-cases, Option-cases,
}
use mathlib.Core.Option
use cc_r_device_agent.Prelude.Dict
use cc_r_device_agent.Alerts.Rules.{
  Floats, AlertState, AlertRule, AlertCondition, Alert, EvaluationResult, TelemetryDataPoint,
}
use cc_r_device_agent.Alerts.Engine.{
  timestamp, shorter, AlertEngine, drop_first, push_alert, alert_of, first_condition, first_metric,
  fired, fire_condition, fire_alert, cooling, too_early, observed, update_found, update_state,
  evaluate_rule_internal, evaluate_all,
}
use cc_r_device_agent.Alerts.Times.{
  IsSpaced, IsSpaced-snoc, times, times-append, IsSpaced-drop_first,
}

second-not : (a b c : Bool) → (a && not b && not c) ≡ true → b ≡ false
second-not a b c h = ground arith

module _ (fl : Floats) (id : String) (cd : ℕ) where
  -- When a rule fired last, as its state says.
  abbrev pub last_of : Option AlertState → Option ℕ
  last_of none = none
  last_of (some s) = Option.map timestamp s.last_fired_at

  abbrev pub last_fired : AlertEngine fl → Option ℕ
  last_fired e = last_of (Dict.get id e.states)

  -- The rule, if it is there, has the cooldown, and its alerts in the history are as far apart.
  pub record IsPaced (e : AlertEngine fl) : Type 0 where
    pub cooldown :
        (rule : AlertRule fl) → Dict.get id e.rules ≡ some rule → rule.cooldown_seconds ≡ cd
    pub spaced : IsSpaced cd (times fl id e.recent_alerts) (last_fired e)

  trim-IsSpaced :
      (b : Bool) (xs : List (Alert fl)) (last : Option ℕ)
      → IsSpaced cd (times fl id xs) last
      → IsSpaced cd (times fl id (if b then drop_first fl xs else xs)) last
  trim-IsSpaced true xs last h = IsSpaced-drop_first fl id cd xs last h
  trim-IsSpaced false xs last h = h

  push_alert-IsPaced :
      (alert : Alert fl) (e : AlertEngine fl)
      → IsSpaced cd (times fl id (e.recent_alerts ++ alert ∷ [])) (last_fired e)
      → ((rule : AlertRule fl) → Dict.get id e.rules ≡ some rule → rule.cooldown_seconds ≡ cd)
      → IsPaced (push_alert fl alert e)
  unfolding push_alert
  push_alert-IsPaced alert e spaced cooldown =
      let pushed = e.recent_alerts ++ alert ∷ [] in
      record {
        cooldown = cooldown;
        spaced = trim-IsSpaced (ltb e.max_history (length pushed)) pushed (last_fired e) spaced;
      }

  -- The state of a rule is written without a change of its last firing.
  insert-last :
      (r : String) (s s' : AlertState) (states : Dict.Dict String AlertState)
      → Dict.get r states ≡ some s
      → s'.last_fired_at ≡ s.last_fired_at
      → last_of (Dict.get id (Dict.insert r s' states)) ≡ last_of (Dict.get id states)
  insert-last r s s' states found same = elim (Bool-cases (string_eq.same r id)) [
    | inr ne ↦ ap last_of (Dict.get-insert_ne r id s' states ne)
    | inl e ↦
        let at : r ≡ id = (string_eq.same_iff r id).0 e in
        let here : Dict.get id states ≡ some s = ap (λ x. Dict.get x states) (sym at) ∙ found in
        let now : Dict.get id (Dict.insert r s' states) ≡ some s' =
          ap (λ x. Dict.get x (Dict.insert r s' states)) (sym at)
          ∙ Dict.get-insert_self r s' states in
        rw (now, here) (rw same refl)
  ]

  observed-last :
      (result : EvaluationResult fl) (now : ℕ) (s : AlertState)
      → (observed fl result now s).last_fired_at ≡ s.last_fired_at
  observed-last result now s = elim (Bool-cases result.is_matched) [
    | inl e ↦ rw e refl
    | inr e ↦ rw e refl
  ]

  module _ (fits : cd < 2 ^ 63) where
    shorter-gap : (now last : ℕ) → shorter now last cd ≡ false → timestamp last + cd ≤ timestamp now
    shorter-gap now last h = ground arith

    -- Out of the cooldown, the last firing is long enough ago.
    cooling-gap :
        (rule : AlertRule fl) (s : AlertState) (now l : ℕ)
        → rule.cooldown_seconds ≡ cd
        → cooling fl (some rule) s now ≡ false
        → last_of (some s) ≡ some l
        → l + cd ≤ timestamp now
    cooling-gap rule s now l same h last = elim (Option-cases s.last_fired_at) [
      | inl e ↦ let bad : none ≡ some l = rw e at last in absurd (cc)
      | inr (t, e) ↦
          let not_shorter : shorter now t cd ≡ false = rw (e, cooling, same) at h in
          let at : some (timestamp t) ≡ some l = rw e at last in
          let at' : timestamp t ≡ l = cc in omega (arith, at', shorter-gap now t not_shorter)
    ]

    module _ (r : String) (result : EvaluationResult fl) (now : ℕ) (uuid : String) where
      -- Firing an alert, for the rule itself with the gap to its last firing.
      fire-IsPaced :
          (e : AlertEngine fl) (s : AlertState) (rule : AlertRule fl)
          (c : Option (AlertCondition fl))
          → Dict.get r e.states ≡ some s
          → IsPaced e
          → (string_eq.same r id ≡ true
              → (l : ℕ) → last_of (some s) ≡ some l
              → l + cd ≤ timestamp now)
          → IsPaced (fire_condition fl r rule result now uuid e c)
      unfolding alert_of
      fire-IsPaced e s rule none found p gap = p
      fire-IsPaced e s rule (some c) found p gap =
          let alert = alert_of fl r rule c (first_metric fl result.triggering_metrics) now uuid in
          let e' : AlertEngine fl = record e { states = Dict.insert r (fired fl now s) e.states } in
          let joined = times-append fl id e.recent_alerts (alert ∷ []) in
          rw found (
            push_alert-IsPaced alert e'
              (subst (λ ts. IsSpaced cd ts (last_fired e')) (sym joined)
                (spaced_by (Bool-cases (string_eq.same r id))))
              p.cooldown)
        where
          spaced_by :
              (string_eq.same r id ≡ true) ⊎ (string_eq.same r id ≡ false)
              → IsSpaced cd
                  (times fl id e.recent_alerts
                    ++ times fl id (
                        alert_of fl r rule c (first_metric fl result.triggering_metrics) now uuid
                        ∷ []))
                  (last_of (Dict.get id (Dict.insert r (fired fl now s) e.states)))
          spaced_by (inl same) =
              let at : r ≡ id = (string_eq.same_iff r id).0 same in
              let before : Dict.get id e.states ≡ some s =
                ap (λ x. Dict.get x e.states) (sym at) ∙ found in
              let states = Dict.insert r (fired fl now s) e.states in
              let after : Dict.get id states ≡ some (fired fl now s) =
                ap (λ x. Dict.get x states) (sym at)
                ∙ Dict.get-insert_self r (fired fl now s) e.states in
              let ts = times fl id e.recent_alerts in
              rw (same, after)
                (IsSpaced-snoc cd ts (last_of (some s)) (timestamp now)
                  (subst (λ o. IsSpaced cd ts (last_of o)) before p.spaced) (gap same))
          spaced_by (inr ne) =
              rw (ne, append-nil (times fl id e.recent_alerts))
                (rw (Dict.get-insert_ne r id (fired fl now s) e.states ne) p.spaced)

      fire_alert-IsPaced :
          (e : AlertEngine fl) (s : AlertState)
          → Dict.get r e.states ≡ some s
          → IsPaced e
          → cooling fl (Dict.get r e.rules) s now ≡ false
          → IsPaced (fire_alert fl r result now uuid e)
      unfolding fire_alert
      fire_alert-IsPaced e s found p cooled = elim (Option-cases (Dict.get r e.rules)) [
        | inl absent ↦ rw absent p
        | inr (rule, there) ↦ rw there (
            fire-IsPaced e s rule (first_condition fl result.matched_conditions rule.conditions)
              found p
              (λ same l last.
                let at : r ≡ id = (string_eq.same_iff r id).0 same in
                let here : Dict.get id e.rules ≡ some rule =
                  ap (λ x. Dict.get x e.rules) (sym at) ∙ there in
                cooling-gap rule s now l (p.cooldown rule here) (rw there at cooled) last))
      ]

      update_found-IsPaced :
          (e : AlertEngine fl) (s : AlertState)
          → Dict.get r e.states ≡ some s
          → IsPaced e
          → IsPaced (update_found fl r result now uuid e (some s))
      update_found-IsPaced e s found p =
          let s' = observed fl result now s in
          let e' : AlertEngine fl = record e { states = Dict.insert r s' e.states } in
          let same = insert-last r s s' e.states found (observed-last result now s) in
          let p' : IsPaced e' = record {
            cooldown = p.cooldown;
            spaced = subst (IsSpaced cd (times fl id e.recent_alerts)) (sym same) p.spaced;
          } in
          let rule = Dict.get r e.rules in
          let fires =
            result.is_matched && not (cooling fl rule s' now) && not (too_early fl rule s' now) in
          elim (Bool-cases fires) [
            | inr no_fire ↦ rw no_fire p'
            | inl fire ↦ rw fire (
                fire_alert-IsPaced e' s' (Dict.get-insert_self r s' e.states) p' (
                  second-not result.is_matched (cooling fl rule s' now) (too_early fl rule s' now)
                    fire))
          ]

      pub update_state-IsPaced :
          (e : AlertEngine fl) → IsPaced e → IsPaced (update_state fl r result now uuid e)
      unfolding update_state
      update_state-IsPaced e p = elim (Option-cases (Dict.get r e.states)) [
        | inl none_there ↦ rw none_there p
        | inr (s, found) ↦ rw found (update_found-IsPaced e s found p)
      ]

    module _ (is_match : String → String → Option Bool) (uuid_of : String → String) where
      pub evaluate_all-IsPaced :
          (ids : List String) (points : List (TelemetryDataPoint fl)) (now : ℕ) (e : AlertEngine fl)
          → IsPaced e
          → IsPaced (evaluate_all fl is_match uuid_of ids points now e).0
      unfolding evaluate_all
      evaluate_all-IsPaced [] points now e p = p
      evaluate_all-IsPaced (r ∷ ids) points now e p =
          let result = evaluate_rule_internal fl is_match r points now e in
          evaluate_all-IsPaced ids points now (update_state fl r result now (uuid_of r) e)
            (update_state-IsPaced r result now (uuid_of r) e p)
