-- ===== src/Tests/Encoding.antt =====
-- A way to write an audit event as a text and to read it back, in the place of JSON: each character
-- of a field stands behind a mark, and a stop ends the field.
use Prim.Native.Char.{code, Char}
use Prim.Native.String.{char_at}
use cc_r_device_agent.Prelude.{
  ℕ, zero, suc, String, ◌≡◌, refl, ap, ◌∙◌, Option, none, some, List, [], ◌∷◌, ◌==◌, if◌then◌else◌,
  ok, Result,
}
use cc_r_device_agent.Security.Types.{Action, Resource}
use cc_r_device_agent.Security.Audit.{AuditEvent, debug_action, debug_resource}
use cc_r_device_agent.Store.Policies.{
  parse_action, parse_resource, parse_action-debug_action, parse_resource-debug_resource,
}

abbrev put : String → String → String
put String.[] rest = String.◌∷◌ (char_at "." 0) rest
put (String.◌∷◌ c s) rest = String.◌∷◌ (char_at ";" 0) (String.◌∷◌ c (put s rest))

abbrev before : Char → Option (String × String) → Option (String × String)
before c none = none
before c (some (s, rest)) = some (String.◌∷◌ c s, rest)

abbrev take_field : String → Option (String × String)
take_field String.[] = none
take_field (String.◌∷◌ c String.[]) = if code c == b'.' then some ("", "") else none
take_field (String.◌∷◌ c (String.◌∷◌ d s)) =
    let later = take_field s in if code c == b'.' then some ("", String.◌∷◌ d s) else before d later

take_field-put : (s rest : String) → take_field (put s rest) ≡ some (s, rest)
take_field-put String.[] String.[] = refl
take_field-put String.[] (String.◌∷◌ d s) = refl
take_field-put (String.◌∷◌ c s) rest = ap (before c) (take_field-put s rest)

abbrev put_all : List String → String
put_all [] = ""
put_all (f ∷ fs) = put f (put_all fs)

abbrev in_front : String → Option (List String) → Option (List String)
in_front f none = none
in_front f (some fs) = some (f ∷ fs)

abbrev next_field :
    (String → Option (List String)) → Option (String × String) → Option (List String)
next_field later none = none
next_field later (some (f, rest)) = in_front f (later rest)

abbrev take_all : ℕ → String → Option (List String)
take_all zero s = some []
take_all (suc n) s = next_field (take_all n) (take_field s)

abbrev size : {A : Type 0} → List A → ℕ
size [] = zero
size (x ∷ xs) = suc (size xs)

take_all-put_all : (fs : List String) → take_all (size fs) (put_all fs) ≡ some fs
take_all-put_all [] = refl
take_all-put_all (f ∷ fs) =
    ap (next_field (take_all (size fs))) (take_field-put f (put_all fs))
    ∙ ap (in_front f) (take_all-put_all fs)

-- A number as so many characters.
abbrev unary : ℕ → String
unary zero = ""
unary (suc n) = String.◌∷◌ (char_at "1" 0) (unary n)

abbrev width : String → ℕ
width String.[] = zero
width (String.◌∷◌ c s) = suc (width s)

width-unary : (n : ℕ) → width (unary n) ≡ n
width-unary zero = refl
width-unary (suc n) = ap suc (width-unary n)

abbrev fields : AuditEvent → List String
fields e =
    e.event_id
    ∷ unary e.timestamp
    ∷ e.tenant_id
    ∷ e.device_id
    ∷ e.principal
    ∷ debug_action e.action
    ∷ debug_resource e.resource
    ∷ e.target
    ∷ e.params_digest
    ∷ e.result
    ∷ e.trace_id
    ∷ e.prev_hash
    ∷ e.hash
    ∷ []

abbrev typed :
    Result String Action
    → Result String Resource
    → (Action → Resource → AuditEvent)
    → Option AuditEvent
typed (ok a) (ok r) make = some (make a r)
typed _ _ make = none

abbrev event_of : List String → Option AuditEvent
event_of
      (id ∷ at ∷ tenant ∷ device ∷ who ∷ a ∷ r ∷ target ∷ digest ∷ result ∷ trace ∷ prev ∷ hash
        ∷ []) =
    typed (parse_action a) (parse_resource r) (λ action resource. record {
      event_id = id;
      timestamp = width at;
      tenant_id = tenant;
      device_id = device;
      principal = who;
      action = action;
      resource = resource;
      target = target;
      params_digest = digest;
      result = result;
      trace_id = trace;
      prev_hash = prev;
      hash = hash;
    })
event_of _ = none

event_of-fields : (e : AuditEvent) → event_of (fields e) ≡ some e
event_of-fields e = rw (parse_action-debug_action, parse_resource-debug_resource, width-unary) refl

abbrev pub encode : AuditEvent → String
encode e = put_all (fields e)

abbrev read_fields : Option (List String) → Option AuditEvent
read_fields none = none
read_fields (some fs) = event_of fs

abbrev pub decode : String → Option AuditEvent
decode s = read_fields (take_all 13 s)

pub decode-encode : (e : AuditEvent) → decode (encode e) ≡ some e
decode-encode e = ap read_fields (take_all-put_all (fields e)) ∙ event_of-fields e
