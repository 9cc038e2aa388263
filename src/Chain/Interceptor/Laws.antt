-- ===== src/Chain/Interceptor/Laws.antt =====
-- What the interceptor guarantees of the inner service, of the audit trail and of its answers.
use cc_r_device_agent.Prelude.{
  ℕ, String, ◌≡◌, refl, ◌⊎◌, sym, ap, ◌∙◌, inl, inr, Bool, true, false, Option, none, some, List,
  [], ◌∷◌, arith, Option-cases, Bool-cases, Result, ok, err, any,
}
use cc_r_device_agent.Prelude.Dict
use cc_r_device_agent.Security.Types.{
  SecurityError, Resource, Action, Decision, allow, deny, AuthMethod, Principal,
}
use cc_r_device_agent.Security.Rbac.{authorize}
use cc_r_device_agent.Security.Replay.{replay_key_eq, key_of, check}
use cc_r_device_agent.Security.Replay.Laws.{check_fresh}
use cc_r_device_agent.Security.Center.{SecurityCenter, authorize_context}
use cc_r_device_agent.Security.Center.Laws.{authorize_context-allow_iff}
use cc_r_device_agent.Security.Audit.{AuditEvent}
use cc_r_device_agent.Chain.Mapper
use cc_r_device_agent.Chain.Identity.{CertInfo, PrincipalHeader, extract}
use cc_r_device_agent.Chain.Interceptor.{
  Code, permission_denied, invalid_argument, SecurityContext, Effect, appended, handled, exit_sent,
  Incoming, Response, answered, refused, Outcome, is_anonymous, entry_of, write_entry, event_for,
  context_of, exit_result, decide, call,
}

abbrev pub is_handled : Effect → Bool
is_handled (handled _) = true
is_handled _ = false

module _ {Cert Headers R E : Type 0} (parse_cert : Cert → Option CertInfo)
    (principal_header : Headers → Option PrincipalHeader) (sha256 : String → List ℕ)
    (sink : AuditEvent → Result String (Unit {0})) (lock_ok : Bool)
    (inner : SecurityContext → Result E R) (default_tenant : String) where
  abbrev pub identity : Incoming Cert Headers → Principal × AuthMethod
  identity r = extract parse_cert principal_header default_tenant r.peer_certs r.headers

  abbrev pub run : Incoming Cert Headers → SecurityCenter → Outcome R E
  run = call parse_cert principal_header sha256 sink lock_ok inner default_tenant

  call_decide :
      (r : Incoming Cert Headers) (sc : SecurityCenter) (x : Result E R)
      → (run r sc).0 ≡ answered x
      → (resource : Resource) × (action : Action) × (is_anonymous (identity r).1 ≡ false)
        × (Mapper.map r.path ≡ some (resource, action))
        × (run r sc
            ≡ decide parse_cert principal_header sha256 sink lock_ok inner default_tenant r sc
                (identity r).0
                (identity r).1
                resource
                action)
  unfolding call
  call_decide r sc x h = elim (Bool-cases (is_anonymous (identity r).1)) [
    | inl a ↦ absurd (ground arith)
    | inr a ↦ elim (Option-cases (Mapper.map r.path)) [
      | inl m ↦ absurd (ground arith)
      | inr (q, m) ↦ (q.0, q.1, a, m, rw a (rw (m, call)))
    ]
  ]

  -- The audit entry of a request that is let through, and the context that its handler sees.
  abbrev pub entry : Incoming Cert Headers → Resource → Action → AuditEvent
  entry r resource action =
      entry_of sha256 (event_for r (identity r).0 action resource "in_progress" r.trace_id)

  abbrev pub handler_context : Incoming Cert Headers → Resource → Action → SecurityContext
  handler_context r resource action = record {
    principal = (identity r).0;
    auth_method = (identity r).1;
    request_context = context_of r (identity r).0 (identity r).1 resource action;
    audit_entry = entry r resource action;
  }

  -- The effects of a request that is let through.
  abbrev pub served : Incoming Cert Headers → Resource → Action → List Effect
  served r resource action =
      appended (entry r resource action)
      ∷ handled (handler_context r resource action)
      ∷ exit_sent (
          event_for r (identity r).0 action resource
            (exit_result (inner (handler_context r resource action)))
            (entry r resource action).event_id)
      ∷ []

  -- The denial that is recorded of a request.
  abbrev pub denial : Incoming Cert Headers → Resource → Action → AuditEvent
  denial r resource action = event_for r (identity r).0 action resource "denied" r.trace_id

  abbrev pub decided :
      Incoming Cert Headers
      → SecurityCenter
      → Resource
      → Action
      → SecurityCenter × Result SecurityError Decision
  decided r sc resource action =
      authorize_context sc (context_of r (identity r).0 (identity r).1 resource action) r.now

  decide_answered :
      (r : Incoming Cert Headers) (sc : SecurityCenter) (resource : Resource) (action : Action)
      (x : Result E R)
      → (decide parse_cert principal_header sha256 sink lock_ok inner default_tenant r sc
          (identity r).0
          (identity r).1
          resource
          action).0
        ≡ answered x
      → (lock_ok ≡ true)
        × ((decided r sc resource action).1 ≡ ok allow)
        × (sink (entry r resource action) ≡ ok tt)
        × (x ≡ inner (handler_context r resource action))
        × ((decide parse_cert principal_header sha256 sink lock_ok inner default_tenant r sc
              (identity r).0
              (identity r).1
              resource
              action).2
            ≡ served r resource action)
        × ((decide parse_cert principal_header sha256 sink lock_ok inner default_tenant r sc
              (identity r).0
              (identity r).1
              resource
              action).1
            ≡ (decided r sc resource action).0)
  unfolding decide
  decide_answered r sc resource action x h =
      (ground arith, ground arith, ground arith, ground arith, ground arith, ground arith)

  -- The inner service ran: the request was not anonymous, the mapper knows its path, the lock was
  -- taken, the policy of the center allows the principal this action on this resource, the replay
  -- guard accepted the request, and the sink took the audit entry. The answer is that of the inner
  -- service in the context of that principal and entry, the center is the one behind the decision, and
  -- the effects are the entry, the inner service and the exit event, in this order and no others.
  pub record IsPassed (r : Incoming Cert Headers) (sc : SecurityCenter) : Type 0 where
    pub resource : Resource
    pub action : Action
    pub known : is_anonymous (identity r).1 ≡ false
    pub mapped : Mapper.map r.path ≡ some (resource, action)
    pub locked : lock_ok ≡ true
    pub permitted : authorize sc.policy (identity r).0 resource action ≡ allow
    pub fresh : (check sc.replay_guard (identity r).0 action r.now r.trace_id r.now).1 ≡ ok tt
    pub stored : sink (entry r resource action) ≡ ok tt
    pub answer : (run r sc).0 ≡ answered (inner (handler_context r resource action))
    pub center : (run r sc).1 ≡ (decided r sc resource action).0
    pub effects : (run r sc).2 ≡ served r resource action

  call_answered :
      (r : Incoming Cert Headers) (sc : SecurityCenter) (x : Result E R)
      → (run r sc).0 ≡ answered x
      → IsPassed r sc
  call_answered r sc x h =
      let (resource, action, known, mapped, e) = call_decide r sc x h in
      let (lock, allowed, taken, answer, effects, center) =
        decide_answered r sc resource action x (sym (ap (λ o. o.0) e) ∙ h) in
      let (permitted, fresh) =
        (authorize_context-allow_iff sc (context_of r (identity r).0 (identity r).1 resource action)
            r.now).0
          allowed in
      record {
        resource = resource;
        action = action;
        known = known;
        mapped = mapped;
        locked = lock;
        permitted = permitted;
        fresh = fresh;
        stored = taken;
        answer = h ∙ ap answered answer;
        center = ap (λ o. o.1) e ∙ center;
        effects = ap (λ o. o.2) e ∙ effects;
      }

  -- The request was refused, and the inner service did not run.
  pub record IsTurnedAway (r : Incoming Cert Headers) (sc : SecurityCenter) : Type 0 where
    pub code : Code
    pub answer : (run r sc).0 ≡ refused code
    pub silent : any is_handled (run r sc).2 ≡ false

  call_refused :
      (r : Incoming Cert Headers) (sc : SecurityCenter) (c : Code)
      → (run r sc).0 ≡ refused c
      → any is_handled (run r sc).2 ≡ false
  unfolding call
  call_refused r sc c h = ground arith

  Response-cases :
      (x : Response R E) → ((y : Result E R) × (x ≡ answered y)) ⊎ ((c : Code) × (x ≡ refused c))
  Response-cases (answered y) = inl (y, refl)
  Response-cases (refused c) = inr (c, refl)

  -- Every request is either passed on or refused. It is passed on only with an identity, a path that
  -- the mapper knows, the lock, a permission of the policy for its resource and action, a nonce that
  -- the guard accepts and a stored audit entry; then the answer is that of the inner service, and the
  -- effects are the entry, the inner service and the exit event, in this order and no others. If it is
  -- refused, the inner service has not run.
  pub call-cases :
      (r : Incoming Cert Headers) (sc : SecurityCenter) → IsPassed r sc ⊎ IsTurnedAway r sc
  call-cases r sc = elim (Response-cases (run r sc).0) [
    | inl (x, h) ↦ inl (call_answered r sc x h)
    | inr (c, h) ↦ inr (record { code = c; answer = h; silent = call_refused r sc c h })
  ]

  -- A request with an identity and a known path that the policy denies or the replay guard refuses
  -- is refused, and exactly one event is offered to the audit sink: a denial with its principal,
  -- resource, action and path. The answer tells the two cases apart.
  pub call-denied :
      (r : Incoming Cert Headers) (sc : SecurityCenter) (resource : Resource) (action : Action)
      → is_anonymous (identity r).1 ≡ false
      → Mapper.map r.path ≡ some (resource, action)
      → lock_ok ≡ true
      → let effect = (write_entry sha256 sink (denial r resource action)).1 in
        ((decided r sc resource action).1 ≡ ok deny
          → run r sc ≡ (refused permission_denied, (decided r sc resource action).0, effect ∷ []))
        × ((e : SecurityError)
            → (decided r sc resource action).1 ≡ err e
            → run r sc ≡ (refused invalid_argument, (decided r sc resource action).0, effect ∷ []))
  unfolding call
  call-denied r sc resource action a m l = (λ h. ground arith, λ e h. ground arith)

  -- While the lock is not poisoned, a request that is not anonymous, whose path is known, that the
  -- policy allows, whose trace id the guard has not seen with this principal and action, and whose audit
  -- entry the sink takes, is answered by the inner service.
  pub call-served :
      (r : Incoming Cert Headers) (sc : SecurityCenter) (resource : Resource) (action : Action)
      → is_anonymous (identity r).1 ≡ false
      → Mapper.map r.path ≡ some (resource, action)
      → lock_ok ≡ true
      → authorize sc.policy (identity r).0 resource action ≡ allow
      → Dict.get (key_of (identity r).0 action r.trace_id) sc.replay_guard.seen ≡ none
      → sink (entry r resource action) ≡ ok tt
      → (run r sc).0 ≡ answered (inner (handler_context r resource action))
  unfolding call
  call-served r sc resource action a m l p f s =
      let allowed : (decided r sc resource action).1 ≡ ok allow =
        (authorize_context-allow_iff sc (context_of r (identity r).0 (identity r).1 resource action)
            r.now).1
          (p, check_fresh sc.replay_guard (identity r).0 action r.now r.trace_id f) in
      ground arith
