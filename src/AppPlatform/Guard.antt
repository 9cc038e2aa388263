-- ===== src/AppPlatform/Guard.antt =====
-- What `secured_rpc` guarantees of the handlers of the calls.
use cc_r_device_agent.Prelude.{
  ℕ, String, ◌≡◌, refl, sym, ap, ◌∙◌, ◌⊎◌, inl, inr, Bool, true, false, Option, some, List, [], ◌∷◌,
  Option-cases, Bool-cases, Result, ok, err, any, Result-cases,
}
use mathlib.Core.Path.{subst}
use cc_r_device_agent.Security.Types.{Decision, allow, deny, SecurityError}
use cc_r_device_agent.Security.Center.{SecurityCenter, authorize_context}
use cc_r_device_agent.Security.Audit.{AuditEvent}
use cc_r_device_agent.Chain.Interceptor.{appended, not_appended, entry_of, write_entry}
use cc_r_device_agent.Lifecycle.Platform.{Platform}
use cc_r_device_agent.AppPlatform.State.{
  Status, Library, Reads, AppAuditMeta, AppRpcSecurity, RpcEffect, audited, ran, AppPlatformState,
}
use cc_r_device_agent.AppPlatform.Center.{
  SameButGuard, SameButGuard-refl, SameButGuard-trans, new_center,
}
use cc_r_device_agent.AppPlatform.Rpc.{
  Handler, Outcome, checked, context_of, event_of, write_audit_exit, result_label,
  status_to_audit_result, run_handler, entered, with_entry, decided, authorized, with_session,
  secured_rpc,
}

abbrev pub is_ran : RpcEffect → Bool
is_ran ran = true
is_ran (audited _) = false

-- The entry event of a call as the sink receives it.
abbrev pub entry : Library → Reads → AppAuditMeta → AuditEvent
entry lib r meta = entry_of lib.sha256 (event_of meta r.trace_id ":entry" r.now "in_progress")

write_entry-cases :
    (sha256 : String → List ℕ) (sink : AuditEvent → Result String (Unit {0})) (e : AuditEvent)
    → let e' = entry_of sha256 e in
      ((sink e' ≡ ok tt) × (write_entry sha256 sink e ≡ (ok e', appended e')))
      ⊎ ((m : String) × (write_entry sha256 sink e ≡ (err m, not_appended e')))
unfolding write_entry
write_entry-cases sha256 sink e = elim (Result-cases (sink (entry_of sha256 e))) [
  | inl (u, stored) ↦ inl (stored, rw (stored, write_entry) refl)
  | inr (m, failed) ↦ inr (m, rw (failed, write_entry) refl)
]

module _ (pal : Platform) (lib : Library) (r : Reads) {T : Type 0} where
  abbrev pub exit_for : AppAuditMeta → Result Status T → RpcEffect
  exit_for meta result = write_audit_exit meta r.trace_id r.finished (result_label result)

  -- A handler ran, in a state, and this is what came of it.
  pub record IsServed (security : AppRpcSecurity) (handler : Handler pal T)
      (s : AppPlatformState pal) (out : Outcome pal T) : Type 0 where
    pub sc : SecurityCenter
    pub sc' : SecurityCenter
    pub configured : s.security_center ≡ some sc
    pub session_ok : checked lib r security.session s.store ≡ ok tt
    pub allowed : authorize_context sc (context_of security.audit r) r.now ≡ (sc', ok allow)
    pub stored : r.sink (entry lib r security.audit) ≡ ok tt
    pub outcome :
        let done = handler (record s { security_center = some sc' }) in
        out ≡ (
          done.0,
          done.1,
          audited (appended (entry lib r security.audit))
              ∷ ran
              ∷ exit_for security.audit done.0
              ∷ [],
        )

  -- No handler ran, the answer is an error, and of the state nothing but the replay guard of the
  -- security center may have changed.
  pub record IsRefused (s : AppPlatformState pal) (out : Outcome pal T) : Type 0 where
    pub silent : any is_ran out.2 ≡ false
    pub failed : (status : Status) × (out.0 ≡ err status)
    pub kept : out.1 ≡ record s { security_center = out.1.security_center }
    pub guarded : SameButGuard s.security_center out.1.security_center

  IsRefused-center :
      (s : AppPlatformState pal) (sc' : Option SecurityCenter) (status : Status)
      (effects : List RpcEffect)
      → SameButGuard s.security_center sc'
      → any is_ran effects ≡ false
      → IsRefused s (err status, record s { security_center = sc' }, effects)
  IsRefused-center s sc' status effects same silent = record {
    silent = silent;
    failed = (status, refl);
    kept = refl;
    guarded = same;
  }

  IsRefused-same :
      (s : AppPlatformState pal) (status : Status) (effects : List RpcEffect)
      → any is_ran effects ≡ false
      → IsRefused s (err status, s, effects)
  IsRefused-same s status effects silent =
      IsRefused-center s s.security_center status effects (SameButGuard-refl s.security_center)
        silent

  with_entry-cases :
      (meta : AppAuditMeta) (handler : Handler pal T) (s : AppPlatformState pal)
      → let out = with_entry pal lib r meta handler s in
        ((r.sink (entry lib r meta) ≡ ok tt)
          × (out ≡ (
            (handler s).0,
            (handler s).1,
            audited (appended (entry lib r meta)) ∷ ran ∷ exit_for meta (handler s).0 ∷ [],
          )))
        ⊎ IsRefused s out
  unfolding with_entry entered run_handler
  with_entry-cases meta handler s =
      elim (write_entry-cases lib.sha256 r.sink
        (event_of meta r.trace_id ":entry" r.now "in_progress")) [
          | inl (stored, e) ↦ inl (stored, rw e refl)
          | inr (m, e) ↦ inr (rw e (IsRefused-same s _ _ refl))
        ]

  -- What is served or refused behind the session.
  abbrev Decided :
      AppAuditMeta → Handler pal T → SecurityCenter → AppPlatformState pal → Outcome pal T → Type 0
  Decided meta handler sc s out =
      ((sc' : SecurityCenter) × (authorize_context sc (context_of meta r) r.now ≡ (sc', ok allow))
        × (r.sink (entry lib r meta) ≡ ok tt)
        × (let done = handler (record s { security_center = some sc' }) in
            out ≡ (
              done.0,
              done.1,
              audited (appended (entry lib r meta)) ∷ ran ∷ exit_for meta done.0 ∷ [],
            )))
      ⊎ IsRefused s out

  decided-cases :
      (meta : AppAuditMeta) (handler : Handler pal T) (sc : SecurityCenter)
      (s : AppPlatformState pal) (sc' : SecurityCenter) (d : Result SecurityError Decision)
      → s.security_center ≡ some sc
      → authorize_context sc (context_of meta r) r.now ≡ (sc', d)
      → Decided meta handler sc s (decided pal lib r meta handler s (sc', d))
  unfolding decided
  decided-cases meta handler sc s sc' (err x) conf e =
      inr (IsRefused-center s _ _ _ (new_center r s sc sc' meta _ conf e) refl)
  decided-cases meta handler sc s sc' (ok deny) conf e =
      inr (IsRefused-center s _ _ _ (new_center r s sc sc' meta _ conf e) refl)
  decided-cases meta handler sc s sc' (ok allow) conf e =
      elim (with_entry-cases meta handler (record s { security_center = some sc' })) [
        | inl (stored, out) ↦ inl (sc', e, stored, out)
        | inr not_run ↦ inr (record {
          silent = not_run.silent;
          failed = not_run.failed;
          kept = not_run.kept;
          guarded =
              SameButGuard-trans s.security_center (some sc') _
                (new_center r s sc sc' meta _ conf e) not_run.guarded;
        })
      ]

  authorized-cases :
      (meta : AppAuditMeta) (handler : Handler pal T) (sc : SecurityCenter)
      (s : AppPlatformState pal)
      → s.security_center ≡ some sc
      → Decided meta handler sc s (authorized pal lib r meta handler sc s)
  unfolding authorized
  authorized-cases meta handler sc s conf = elim (Bool-cases r.lock_ok) [
    | inl lock ↦
        let d = authorize_context sc (context_of meta r) r.now in
        simp lock (decided-cases meta handler sc s d.0 d.1 conf refl)
    | inr lock ↦ inr (simp lock (IsRefused-same s _ _ refl))
  ]

  with_session-cases :
      (security : AppRpcSecurity) (handler : Handler pal T) (s : AppPlatformState pal)
      (sc : SecurityCenter)
      → s.security_center ≡ some sc
      → (c : Result Status (Unit {0})) → checked lib r security.session s.store ≡ c
      → let out = with_session pal lib r security handler sc s c in
        IsServed security handler s out ⊎ IsRefused s out
  unfolding with_session
  with_session-cases security handler s sc e (err status) h = inr (IsRefused-same s _ _ refl)
  with_session-cases security handler s sc e (ok _) h =
      elim (authorized-cases security.audit handler sc s e) [
        | inr not_run ↦ inr not_run
        | inl (sc', allowed, stored, out) ↦ inl (record {
          sc = sc;
          sc' = sc';
          configured = e;
          session_ok = h;
          allowed = allowed;
          stored = stored;
          outcome = out;
        })
      ]

  -- Each call is served or refused.
  pub secured_rpc-cases :
      (security : AppRpcSecurity) (handler : Handler pal T) (s : AppPlatformState pal)
      → let out = secured_rpc pal lib r security handler s in
        IsServed security handler s out ⊎ IsRefused s out
  unfolding secured_rpc
  secured_rpc-cases security handler s = elim (Option-cases s.security_center) [
    | inl e ↦ inr (simp (e, secured_rpc) (IsRefused-same s _ _ refl))
    | inr (sc, e) ↦ elim (Bool-cases s.audit_writer) [
      | inl w ↦ simp (e, w, secured_rpc) (with_session-cases security handler s sc e _ refl)
      | inr w ↦ inr (simp (e, w, secured_rpc) (IsRefused-same s _ _ refl))
    ]
  ]

  -- An answer that is no error is the handler's, and so is the state behind it.
  pub secured_rpc-ok :
      (security : AppRpcSecurity) (handler : Handler pal T) (s : AppPlatformState pal)
      (answered : T)
      → let out = secured_rpc pal lib r security handler s in
        out.0 ≡ ok answered
        → (sc' : SecurityCenter) × (let done = handler (record s { security_center = some sc' }) in
            (done.0 ≡ ok answered) × (out.1 ≡ done.1))
  secured_rpc-ok security handler s answered h = elim (secured_rpc-cases security handler s) [
    | inl v ↦ (v.sc', (ap (λ o. o.0) (sym v.outcome) ∙ h, ap (λ o. o.1) v.outcome))
    | inr v ↦ let (status, bad) = v.failed in absurd (cc)
  ]

  -- A property of states that the handler keeps, whatever the security center is, is kept by the call.
  pub secured_rpc-keeps :
      (P : AppPlatformState pal → Type 0)
      → ((s : AppPlatformState pal) (sc : Option SecurityCenter)
          → P s
          → P (record s { security_center = sc }))
      → (security : AppRpcSecurity) (handler : Handler pal T)
      → ((s : AppPlatformState pal) → P s → P (handler s).1)
      → (s : AppPlatformState pal) → P s
      → P (secured_rpc pal lib r security handler s).1
  secured_rpc-keeps P moves security handler keeps s p =
      elim (secured_rpc-cases security handler s) [
        | inl v ↦
            let s' = record s { security_center = some v.sc' } in
            subst P (sym (ap (λ o. o.1) v.outcome)) (keeps s' (moves s (some v.sc') p))
        | inr v ↦
            let out = secured_rpc pal lib r security handler s in
            subst P (sym v.kept) (moves s out.1.security_center p)
      ]

  -- A call whose session is refused is answered with that refusal, and nothing changes.
  pub secured_rpc-refused :
      (security : AppRpcSecurity) (handler : Handler pal T) (s : AppPlatformState pal)
      (sc : SecurityCenter) (status : Status)
      → s.security_center ≡ some sc
      → s.audit_writer ≡ true
      → checked lib r security.session s.store ≡ err status
      → secured_rpc pal lib r security handler s ≡ (
        err status,
        s,
        write_audit_exit security.audit r.trace_id r.finished (status_to_audit_result status) ∷ [],
      )
  unfolding secured_rpc with_session
  secured_rpc-refused security handler s sc status e w refused =
      simp (e, w, secured_rpc) (simp refused refl)
