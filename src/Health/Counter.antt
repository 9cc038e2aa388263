-- ===== src/Health/Counter.antt =====
-- What the entry of an application in src/health_evaluator.rs holds, by the history of the calls.
use cc_r_device_agent.Prelude.{
  ℕ, suc, ◌-◌, ◌^◌, ◌≤◌, ◌<◌, ◌≡◌, refl, sym, ap, ◌∙◌, inl, inr, String, Bool, true, false, not,
  ◌&&◌, Option, none, some, List, [], ◌∷◌, ltb, leb, length, if◌then◌else◌, string_eq, str_eq,
  eq_iff, arith, Bool-cases, Option-cases,
}
use cc_r_device_agent.Prelude.Dict
use cc_r_device_agent.Prelude.Dict.{get-insert}
use cc_r_device_agent.Health.Evaluator.{
  HealthStatus, HealthPolicy, AppHealth, Apps, default_policy, fresh, set_policy, is_unhealthy,
  restarts, counted, evaluate, entry_of, report,
}

-- The calls that write to the table.
pub data Event : Type 0 where
  policy_set : String → HealthPolicy → Event
  reported : String → HealthStatus → ℕ → Event

-- The table after a history, the newest event first.
unfoldable pub after : List Event → Apps
after [] = []
after (policy_set j p ∷ es) = set_policy j p (after es)
after (reported j s t ∷ es) = (report j s t (after es)).0

-- The number of unhealthy reports of an application since its last other report.
unfoldable pub streak : String → List Event → ℕ
streak id [] = 0
streak id (policy_set j p ∷ es) = streak id es
streak id (reported j s t ∷ es) =
    let rest = streak id es in if str_eq j id then if is_unhealthy s then suc rest else 0 else rest

-- The last policy that was set, or the default.
unfoldable pub policy_of : String → List Event → HealthPolicy
policy_of id [] = default_policy
policy_of id (policy_set j p ∷ es) = let rest = policy_of id es in if str_eq j id then p else rest
policy_of id (reported j s t ∷ es) = policy_of id es

-- The clock is less than the interval behind the last restart.
abbrev pub is_limited : HealthPolicy → Option ℕ → ℕ → Bool
is_limited p none now = false
is_limited p (some t) now = ltb (now - t) p.min_restart_interval

-- A policy fires after so many failures, with the last restart, at a time.
abbrev pub fires : HealthPolicy → ℕ → Option ℕ → ℕ → Bool
fires p n last now = leb p.unhealthy_threshold n && not (is_limited p last now)

-- The time of the last action with a restart.
unfoldable pub last_restart_of : String → List Event → Option ℕ
unfolding streak policy_of
last_restart_of id [] = none
last_restart_of id (policy_set j p ∷ es) = last_restart_of id es
last_restart_of id (reported j s t ∷ es) =
    let last = last_restart_of id es in
    let p = policy_of id es in
    if str_eq j id && (fires p (streak id (reported j s t ∷ es)) last t && restarts p.action)
    then some t
    else last

pub evaluate_lem :
    (id : String) (now : ℕ) (h : AppHealth)
    → let f = fires h.policy h.consecutive_failures h.last_restart now in
      evaluate id now h ≡ (
        record h {
          last_restart = if f && restarts h.policy.action then some now else h.last_restart;
        },
        if f
            then some (record {
              app_id = id;
              action = h.policy.action;
              consecutive_failures = h.consecutive_failures;
            })
            else none,
      )
unfolding evaluate
evaluate_lem id now h = ground arith

entry-insert :
    (id j : String) (h : AppHealth) (apps : Apps)
    → entry_of id (Dict.insert j h apps) ≡ (if str_eq j id then h else entry_of id apps)
entry-insert id j h apps = elim (Bool-cases (str_eq j id)) [
  | inl e ↦ rw get-insert (rw e)
  | inr e ↦ rw get-insert (rw e)
]

entry-set_policy :
    (id j : String) (p : HealthPolicy) (apps : Apps)
    → entry_of id (set_policy j p apps)
      ≡ (if str_eq j id then record (entry_of id apps) { policy = p } else entry_of id apps)
unfolding set_policy
entry-set_policy id j p apps = elim (Bool-cases (str_eq j id)) [
  | inl e ↦
      let found = ap (λ k. Dict.get k apps) ((eq_iff j id).0 e) in
      elim (Option-cases (Dict.get j apps)) [
        | inl g ↦
            rw (e, if◌then◌else◌)
              (rw (g, set_policy) (entry-insert id j (fresh p) apps ∙ rw e (rw (sym found ∙ g))))
        | inr (h, g) ↦
            rw (e, if◌then◌else◌)
              (rw (g, set_policy)
                (entry-insert id j (record h { policy = p }) apps ∙ rw e (rw (sym found ∙ g))))
      ]
  | inr e ↦ elim (Option-cases (Dict.get j apps)) [
    | inl g ↦ rw (e, if◌then◌else◌) (rw (g, set_policy) (entry-insert id j (fresh p) apps ∙ rw e))
    | inr (h, g) ↦
        rw (e, if◌then◌else◌)
          (rw (g, set_policy) (entry-insert id j (record h { policy = p }) apps ∙ rw e))
  ]
]

entry-report :
    (id j : String) (s : HealthStatus) (t : ℕ) (apps : Apps)
    → entry_of id (report j s t apps).0
      ≡ (if str_eq j id then (evaluate id t (counted s (entry_of id apps))).0 else entry_of id apps)
unfolding report
entry-report id j s t apps =
    entry-insert id j (evaluate j t (counted s (entry_of j apps))).0 apps
    ∙ elim (Bool-cases (str_eq j id)) [
      | inl e ↦ rw e (ap (λ k. (evaluate k t (counted s (entry_of k apps))).0) ((eq_iff j id).0 e))
      | inr e ↦ rw e
    ]

streak_le : (id : String) (es : List Event) → streak id es ≤ length es
unfolding streak
streak_le id [] = omega arith
streak_le id (policy_set j p ∷ es) = omega (arith, streak_le id es)
streak_le id (reported j s t ∷ es) = ground (arith, streak_le id es)

-- The entry as the history tells it.
pub record Tells (id : String) (es : List Event) : Type 0 where
  pub counts : (entry_of id (after es)).consecutive_failures ≡ streak id es
  pub remembers : (entry_of id (after es)).last_restart ≡ last_restart_of id es
  pub obeys : (entry_of id (after es)).policy ≡ policy_of id es

pub counted-streak :
    (id j : String) (s : HealthStatus) (t : ℕ) (es : List Event)
    → str_eq j id ≡ true
    → length es < 2 ^ 32 - 1
    → (entry_of id (after es)).consecutive_failures ≡ streak id es
    → (counted s (entry_of id (after es))).consecutive_failures ≡ streak id (reported j s t ∷ es)
unfolding streak
counted-streak id j s t es b h e = ground (arith, streak_le id es)

-- The time of the last restart after a report.
restarted :
    (id j : String) (s : HealthStatus) (t : ℕ) (es : List Event)
    → str_eq j id ≡ true
    → Tells id es
    → (counted s (entry_of id (after es))).consecutive_failures ≡ streak id (reported j s t ∷ es)
    → (evaluate id t (counted s (entry_of id (after es)))).0.last_restart
      ≡ last_restart_of id (reported j s t ∷ es)
unfolding last_restart_of
restarted id j s t es b told c =
    ap (λ z. z.0.last_restart) (evaluate_lem id t (counted s (entry_of id (after es))))
    ∙ rw told.obeys (rw told.remembers (rw c (rw b)))

pub entry-Tells : (id : String) (es : List Event) → length es < 2 ^ 32 → Tells id es
unfolding after streak policy_of last_restart_of Dict.get
entry-Tells id [] h = record { counts = refl; remembers = refl; obeys = refl }
entry-Tells id (policy_set j p ∷ es) h =
    let told = entry-Tells id es (omega arith) in
    let e = entry-set_policy id j p (after es) in
    elim (Bool-cases (str_eq j id)) [
      | inl b ↦ record {
        counts = ap (λ x. x.consecutive_failures) e ∙ rw b told.counts;
        remembers = ap (λ x. x.last_restart) e ∙ rw b told.remembers;
        obeys = ap (λ x. x.policy) e ∙ rw b;
      }
      | inr b ↦ record {
        counts = ap (λ x. x.consecutive_failures) e ∙ rw b told.counts;
        remembers = ap (λ x. x.last_restart) e ∙ rw b told.remembers;
        obeys = ap (λ x. x.policy) e ∙ rw b told.obeys;
      }
    ]
entry-Tells id (reported j s t ∷ es) h =
    let told = entry-Tells id es (omega arith) in
    let e = entry-report id j s t (after es) in
    let ev = evaluate_lem id t (counted s (entry_of id (after es))) in
    elim (Bool-cases (str_eq j id)) [
      | inl b ↦
          let c = counted-streak id j s t es b (omega arith) told.counts in
          let here : entry_of id (report j s t (after es)).0
              ≡ (evaluate id t (counted s (entry_of id (after es)))).0 =
            e ∙ rw b in
          record {
            counts =
                ap (λ x. x.consecutive_failures) here ∙ ap (λ z. z.0.consecutive_failures) ev ∙ c;
            remembers = ap (λ x. x.last_restart) here ∙ restarted id j s t es b told c;
            obeys = ap (λ x. x.policy) here ∙ ap (λ z. z.0.policy) ev ∙ told.obeys;
          }
      | inr b ↦ record {
        counts = ap (λ x. x.consecutive_failures) e ∙ rw b told.counts;
        remembers = ap (λ x. x.last_restart) e ∙ rw b told.remembers;
        obeys = ap (λ x. x.policy) e ∙ rw b told.obeys;
      }
    ]
