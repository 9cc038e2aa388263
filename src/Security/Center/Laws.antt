-- ===== src/Security/Center/Laws.antt =====
-- `BasicSecurityCenter::authorize`: what each decision means, and sequences of decisions.
use cc_r_device_agent.Prelude.{
  ℕ, ◌≤◌, ◌≡◌, refl, ◌↔◌, ◌⊎◌, inl, inr, List, [], ◌∷◌, arith, All, Result, ok, err, ap, ◌∙◌,
}
use cc_r_device_agent.Security.Types.{
  SecurityError, replay_detected, timestamp_out_of_window, Decision, allow, deny, RequestContext,
}
use cc_r_device_agent.Security.Rbac.{RbacPolicy, authorize}
use cc_r_device_agent.Security.Replay.{ReplayGuard, check}
use cc_r_device_agent.Security.Replay.Traces.{Call, run, run_check, run-no_replay}
use cc_r_device_agent.Security.Center.{SecurityCenter, authorize_context}

abbrev permits : RbacPolicy → RequestContext → Decision
permits policy c = authorize policy c.principal c.resource c.action

abbrev checked : SecurityCenter → RequestContext → ℕ → ReplayGuard × Result SecurityError (Unit {0})
checked sc c now = check sc.replay_guard c.principal c.action c.timestamp c.nonce now

-- A request that the policy denies is answered `Deny` and leaves the center as it was: its nonce
-- is not used up. Any other goes to the replay guard, whose new state is kept, and is answered
-- `Allow` if the guard accepts it and with the guard's error if not. The policy never changes.
pub authorize_context_branches :
    (sc : SecurityCenter) (c : RequestContext) (now : ℕ)
    → (permits sc.policy c ≡ deny → authorize_context sc c now ≡ (sc, ok deny))
      × (permits sc.policy c ≡ allow
          → (checked sc c now).1 ≡ ok tt
          → authorize_context sc c now
            ≡ (record sc { replay_guard = (checked sc c now).0 }, ok allow))
      × (permits sc.policy c ≡ allow
          → (e : SecurityError) → (checked sc c now).1 ≡ err e
          → authorize_context sc c now ≡ (record sc { replay_guard = (checked sc c now).0 }, err e))
unfolding authorize_context
authorize_context_branches sc c now =
    (λ h. ground arith, λ h k. ground arith, λ h e k. ground arith)

pub authorize_context-policy :
    (sc : SecurityCenter) (c : RequestContext) (now : ℕ)
    → (authorize_context sc c now).0.policy ≡ sc.policy
unfolding authorize_context
authorize_context-policy sc c now = ground arith

-- `Allow` is answered exactly when the policy allows the request and the guard accepts it.
pub authorize_context-allow_iff :
    (sc : SecurityCenter) (c : RequestContext) (now : ℕ)
    → ((authorize_context sc c now).1 ≡ ok allow)
      ↔ ((permits sc.policy c ≡ allow) × ((checked sc c now).1 ≡ ok tt))
unfolding authorize_context
authorize_context-allow_iff sc c now = (λ h. (ground arith, ground arith), λ h. ground arith)

-- A request, and the clock it is authorized at.
abbrev Request : Type 0
Request = RequestContext × ℕ

unfoldable pub run_requests : SecurityCenter → List Request → SecurityCenter
run_requests sc [] = sc
run_requests sc ((c, now) ∷ rest) = run_requests (authorize_context sc c now).0 rest

abbrev call_of : RequestContext → ℕ → Call
call_of c now = record {
  principal = c.principal;
  action = c.action;
  timestamp = c.timestamp;
  nonce = c.nonce;
  now = now;
}

-- The calls of the guard that a sequence of requests makes: those of the requests not denied.
abbrev guard_calls : RbacPolicy → List Request → List Call
guard_calls policy [] = []
guard_calls policy ((c, now) ∷ rest) = elim (permits policy c) [
  | allow ↦ call_of c now ∷ guard_calls policy rest
  | deny ↦ guard_calls policy rest
]

guard_after :
    (sc : SecurityCenter) (c : RequestContext) (now : ℕ)
    → ((permits sc.policy c ≡ allow)
        × ((authorize_context sc c now).0.replay_guard ≡ run_check sc.replay_guard (call_of c now)))
      ⊎ ((permits sc.policy c ≡ deny)
          × ((authorize_context sc c now).0.replay_guard ≡ sc.replay_guard))
unfolding authorize_context
guard_after sc c now = ground arith

run_requests-policy :
    (sc : SecurityCenter) (rs : List Request) → (run_requests sc rs).policy ≡ sc.policy
unfolding run_requests
run_requests-policy sc [] = refl
run_requests-policy sc ((c, now) ∷ rest) =
    run_requests-policy (authorize_context sc c now).0 rest ∙ authorize_context-policy sc c now

run_requests-guard :
    (sc : SecurityCenter) (policy : RbacPolicy) (rs : List Request)
    → sc.policy ≡ policy
    → (run_requests sc rs).replay_guard ≡ run sc.replay_guard (guard_calls policy rs)
unfolding run_requests run
run_requests-guard sc policy [] e = refl
run_requests-guard sc policy ((c, now) ∷ rest) e = ground (
  arith,
  guard_after sc c now,
  run_requests-guard (authorize_context sc c now).0 policy rest,
  authorize_context-policy sc c now,
)

guard_calls-All :
    (policy : RbacPolicy) (rs : List Request) (later : ℕ)
    → All (λ r. r.1 ≤ later) rs
    → All (λ c. c.now ≤ later) (guard_calls policy rs)
guard_calls-All policy [] later h = tt
guard_calls-All policy ((c, now) ∷ rest) later h =
    ground (arith, guard_calls-All policy rest later h.1)

refused :
    (sc : SecurityCenter) (c : RequestContext) (now : ℕ) (e : SecurityError)
    → permits sc.policy c ≡ allow
    → (checked sc c now).1 ≡ err e
    → (authorize_context sc c now).1 ≡ err e
unfolding authorize_context
refused sc c now e h k = ground arith

-- A request that was allowed is never allowed again, whatever requests come between, as long as
-- none of them is authorized at a clock later than that of the repeated request.
pub run_requests-no_replay :
    (sc : SecurityCenter) (c : RequestContext) (now later : ℕ) (between : List Request)
    → (authorize_context sc c now).1 ≡ ok allow
    → All (λ r. r.1 ≤ later) between
    → let sc' = run_requests (authorize_context sc c now).0 between in
      ((authorize_context sc' c later).1 ≡ err replay_detected)
      ⊎ ((authorize_context sc' c later).1 ≡ err timestamp_out_of_window)
run_requests-no_replay sc c now later between h hs =
    let sc₁ = (authorize_context sc c now).0 in
    let sc' = run_requests sc₁ between in
    let accepted = (authorize_context-allow_iff sc c now).0 h in
    let e₁ : sc₁.policy ≡ sc.policy = authorize_context-policy sc c now in
    let p' : permits sc'.policy c ≡ allow =
      rw (run_requests-policy sc₁ between) (rw e₁ accepted.0) in
    let g₁ : sc₁.replay_guard ≡ (checked sc c now).0 =
      ap (λ r. r.0.replay_guard) ((authorize_context_branches sc c now).1 accepted.0 accepted.1) in
    let g' : sc'.replay_guard ≡ run (checked sc c now).0 (guard_calls sc.policy between) =
      run_requests-guard sc₁ sc.policy between e₁
      ∙ ap (λ g. run g (guard_calls sc.policy between)) g₁ in
    elim (run-no_replay sc.replay_guard c.principal c.action c.timestamp c.nonce now later
      (guard_calls sc.policy between) accepted.1 (guard_calls-All sc.policy between later hs)) [
        | inl r ↦ inl (refused sc' c later replay_detected p' (rw g' r))
        | inr r ↦ inr (refused sc' c later timestamp_out_of_window p' (rw g' r))
      ]
