-- ===== src/Router/Uplink.antt =====
-- Whether the applications' uplink topics are apart.
use Prim.Native.Char.{Char, code}
use Prim.Native.String.{char_at}
use text.Mathlib.TextLemmas.{
  nil-append, cons-append, cons-eq-cons, append_cancel_left, append_assoc,
}
use cc_r_device_agent.Prelude.{
  String, ◌≡◌, refl, sym, ap, ◌∙◌, Bool, false, arith, ◌+s◌, any_char, ok, bind_ok, ◌==◌,
}
use cc_r_device_agent.Router.{DataRouter, app_uplink_topic, validate_app_topic, uplink_topic}

abbrev pub has_slash : String → Bool
has_slash s = any_char (λ c. c == b'/') s

slash_first : (t : String) → "/" +s t ≡ String.◌∷◌ (char_at "/" 0) t
slash_first t = cons-append (char_at "/" 0) "" t ∙ rw (nil-append t) refl

-- What follows a slash is not what follows a character that is none.
not-slash :
    (d : Char) (b t u : String)
    → has_slash (String.◌∷◌ d b) ≡ false
    → "" +s "/" +s t ≡ String.◌∷◌ d b +s u
    → ⊥
unfolding any_char
not-slash d b t u q h =
    let joined = sym (nil-append ("/" +s t) ∙ slash_first t) ∙ h ∙ cons-append d b u in
    let e : b'/' ≡ code d = ap code (cons-eq-cons.0 joined).0 in ground arith

-- Texts without a slash end at the first slash.
cut :
    (a b t u : String)
    → has_slash a ≡ false
    → has_slash b ≡ false
    → a +s "/" +s t ≡ b +s "/" +s u
    → (a ≡ b) × (t ≡ u)
unfolding any_char
cut String.[] String.[] t u p q h =
    (refl, append_cancel_left "/" t u (sym (nil-append ("/" +s t)) ∙ h ∙ nil-append ("/" +s u)))
cut String.[] (String.◌∷◌ d b) t u p q h = absurd (not-slash d b t ("/" +s u) q h)
cut (String.◌∷◌ c a) String.[] t u p q h = absurd (not-slash c a u ("/" +s t) p (sym h))
cut (String.◌∷◌ c a) (String.◌∷◌ d b) t u p q h =
    let joined = sym (cons-append c a ("/" +s t)) ∙ h ∙ cons-append d b ("/" +s u) in
    let (same, rest) = cons-eq-cons.0 joined in
    let (e, e') = cut a b t u (ground arith) (ground arith) rest in (rw (same, e) refl, e')

-- The common beginning of the topics of a device.
abbrev pub prefix : DataRouter → String
prefix r = r.tenant +s "/" +s r.device_id +s "/apps/"

app_uplink_topic_lem :
    (r : DataRouter) (app_id topic : String)
    → app_uplink_topic r.tenant r.device_id app_id topic ≡ prefix r +s app_id +s "/" +s topic
unfolding app_uplink_topic
app_uplink_topic_lem r app_id topic = simp append_assoc

uplink_topic_lem :
    (r : DataRouter) (app_id topic x : String)
    → uplink_topic r app_id topic ≡ ok x
    → x ≡ prefix r +s app_id +s "/" +s topic
unfolding uplink_topic
uplink_topic_lem r app_id topic x h =
    let (_, valid, made) =
      bind_ok (validate_app_topic topic)
        (λ _. ok (app_uplink_topic r.tenant r.device_id app_id topic)) h in
    let e : app_uplink_topic r.tenant r.device_id app_id topic ≡ x = ground arith in
    sym e ∙ app_uplink_topic_lem r app_id topic

-- Two applications without a slash in their ids never publish under one topic, nor one of them
-- under one topic for two.
pub uplink_topic_apart :
    (r : DataRouter) (app other topic topic' x : String)
    → has_slash app ≡ false
    → has_slash other ≡ false
    → uplink_topic r app topic ≡ ok x
    → uplink_topic r other topic' ≡ ok x
    → (app ≡ other) × (topic ≡ topic')
uplink_topic_apart r app other topic topic' x p q h h' = cut app other topic topic' p q (
    append_cancel_left (prefix r) _ _
      (sym (uplink_topic_lem r app topic x h) ∙ uplink_topic_lem r other topic' x h'))
