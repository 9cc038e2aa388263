-- ===== src/AppPlatform/Center.antt =====
-- What `secured_rpc` may change of the security center.
use cc_r_device_agent.Prelude.{
  ℕ, ◌≡◌, refl, sym, ap, ◌∙◌, ◌⊎◌, inl, inr, Option, none, some, Result,
}
use mathlib.Core.Option.{some-injective}
use cc_r_device_agent.Security.Types.{Decision, allow, deny, SecurityError, RequestContext}
use cc_r_device_agent.Security.Rbac.{authorize}
use cc_r_device_agent.Security.Replay.{ReplayGuard}
use cc_r_device_agent.Security.Center.{SecurityCenter, authorize_request, authorize_context}
use cc_r_device_agent.Lifecycle.Platform.{Platform}
use cc_r_device_agent.AppPlatform.State.{Reads, AppAuditMeta, AppPlatformState}
use cc_r_device_agent.AppPlatform.Rpc.{context_of}

abbrev pub with_guard : ReplayGuard → SecurityCenter → SecurityCenter
with_guard g sc = record sc { replay_guard = g }

-- A security center is there or not as before, and is the same but for its replay guard.
unfoldable pub SameButGuard : Option SecurityCenter → Option SecurityCenter → Type 0
SameButGuard none now = now ≡ none
SameButGuard (some sc) now = (g : ReplayGuard) × (now ≡ some (with_guard g sc))

pub SameButGuard-refl : (sc : Option SecurityCenter) → SameButGuard sc sc
unfolding SameButGuard
SameButGuard-refl none = refl
SameButGuard-refl (some sc) = (sc.replay_guard, refl)

Decision-cases : (d : Decision) → (d ≡ allow) ⊎ (d ≡ deny)
Decision-cases allow = inl refl
Decision-cases deny = inr refl

authorize_context-guard :
    (sc : SecurityCenter) (context : RequestContext) (now : ℕ)
    → let sc' = (authorize_context sc context now).0 in (g : ReplayGuard) × (sc' ≡ with_guard g sc)
unfolding authorize_context authorize_request
authorize_context-guard sc context now =
    elim (Decision-cases (authorize sc.policy context.principal context.resource context.action)) [
      | inl e ↦ rw (e, authorize_request) (_, refl)
      | inr e ↦ rw (e, authorize_request) (sc.replay_guard, refl)
    ]

-- A center in the place of another one that is the same but for the guard.
SameButGuard-some :
    (o : Option SecurityCenter) (sc sc' : SecurityCenter) (g : ReplayGuard)
    → o ≡ some sc
    → sc' ≡ with_guard g sc
    → SameButGuard o (some sc')
unfolding SameButGuard
SameButGuard-some none sc sc' g e k = absurd (cc)
SameButGuard-some (some old) sc sc' g e k =
    (g, ap some (k ∙ ap (with_guard g) (sym (some-injective old sc e))))

pub SameButGuard-trans :
    (a b c : Option SecurityCenter) → SameButGuard a b → SameButGuard b c → SameButGuard a c
unfolding SameButGuard
SameButGuard-trans none none c h k = k
SameButGuard-trans none (some b) c h k = absurd (cc)
SameButGuard-trans (some a) none c (g, h) k = absurd (cc)
SameButGuard-trans (some a) (some b) c (g, h) (g', k) =
    (g', k ∙ ap (λ x. some (with_guard g' x)) (some-injective b _ h))

-- The center behind `authorize`.
pub new_center :
    {pal : Platform} (r : Reads) (s : AppPlatformState pal) (sc sc' : SecurityCenter)
    (meta : AppAuditMeta) (d : Result SecurityError Decision)
    → s.security_center ≡ some sc
    → authorize_context sc (context_of meta r) r.now ≡ (sc', d)
    → SameButGuard s.security_center (some sc')
new_center r s sc sc' meta d conf e =
    let (g, same) = authorize_context-guard sc (context_of meta r) r.now in
    SameButGuard-some s.security_center sc sc' g conf (sym (ap (λ o. o.0) e) ∙ same)
