-- ===== src/CommandPolicy/Params.antt =====
-- The loop over a command's parameters: when it succeeds, and which arguments it builds.
use Prim.Native.String.{len}
use mathlib.Core.Path.{subst}
use cc_r_device_agent.Prelude.{
  String, ◌≡◌, refl, ◌≤◌, ◌⊎◌, inl, inr, true, false, Option, none, some, List, [], ◌∷◌, arith, All,
  bind_ok, ok, Bool-cases, Option-cases, string_eq, eq_iff,
}
use cc_r_device_agent.Prelude.Dict
use cc_r_device_agent.Prelude.Dict.{Dict, get-insert, get-insert_self}
use cc_r_device_agent.CommandPolicy.{
  ParameterSpec, is_blank, contains_shell_metacharacter, check_text, check_parameter,
  check_parameters,
}

-- What a parameter's text must be.
abbrev pub Fits : ParameterSpec → String → Type 0
Fits p s =
    (is_blank s ≡ false)
    × (len s ≤ p.max_len)
    × ((p.allow_shell_metacharacters ≡ true) ⊎ (contains_shell_metacharacter s ≡ false))

-- Some element of a list has the property.
abbrev pub Some : {A : Type 0} → (A → Type 0) → List A → Type 0
Some P [] = ⊥
Some P (x ∷ xs) = P x ⊎ Some P xs

check_text-Fits : (p : ParameterSpec) (s v : String) → check_text p s ≡ ok v → (v ≡ s) × Fits p s
unfolding check_text
check_text-Fits p s v h = ground arith

Fits-check_text : (p : ParameterSpec) (s : String) → Fits p s → check_text p s ≡ ok s
unfolding check_text
Fits-check_text p s h = ground arith

module _ {Value : Type 0} (get : Value → String → Option Value)
    (as_str : Value → Option String) where
  -- The text of a field of the parameters, if it has one.
  abbrev pub text_of : Value → String → Option String
  text_of params name = elim (get params name) [ none ↦ none | some v ↦ as_str v ]

  -- The parameter is given a text that fits, or it is optional and not given.
  abbrev pub IsGood : Value → ParameterSpec → Type 0
  IsGood params p =
      ((get params p.name ≡ none) × (p.required ≡ false))
      ⊎ ((s : String) × (text_of params p.name ≡ some s) × Fits p s)

  check_parameter-ok :
      (p : ParameterSpec) (params : Value) (args : Dict String String) {args' : Dict String String}
      → check_parameter get as_str p params args ≡ ok args'
      → ((get params p.name ≡ none) × (p.required ≡ false) × (args' ≡ args))
        ⊎ ((s : String) × (text_of params p.name ≡ some s)
            × Fits p s
            × (args' ≡ Dict.insert p.name s args))
  unfolding check_parameter check_text
  check_parameter-ok p params args h = elim (Option-cases (get params p.name)) [
    | inl e ↦ inl (e, ground arith, ground arith)
    | inr (v, e) ↦ elim (Option-cases (as_str v)) [
      | inl e' ↦ absurd (ground arith)
      | inr (s, e') ↦ inr (s, rw (e, text_of) e', ground arith, ground arith)
    ]
  ]

  IsGood-check_parameter :
      (p : ParameterSpec) (params : Value) (args : Dict String String)
      → IsGood params p
      → (args' : Dict String String) × (check_parameter get as_str p params args ≡ ok args')
  unfolding check_parameter
  IsGood-check_parameter p params args (inl (e, r)) = (args, rw (e, check_parameter) (rw r))
  IsGood-check_parameter p params args (inr (s, e, f)) = elim (Option-cases (get params p.name)) [
    | inl n ↦ absurd (ground arith)
    | inr (v, g) ↦
        let e' : as_str v ≡ some s = ground arith in
        (Dict.insert p.name s args, rw (g, check_parameter) (rw e' (rw (Fits-check_text p s f))))
  ]

  -- The loop succeeds only if every parameter is good.
  pub check_parameters-All :
      (ps : List ParameterSpec) (params : Value) (args : Dict String String)
      {args' : Dict String String}
      → check_parameters get as_str ps params args ≡ ok args'
      → All (IsGood params) ps
  unfolding check_parameters
  check_parameters-All [] params args h = tt
  check_parameters-All (p ∷ ps) params args h =
      let (args₁, first, rest) = bind_ok (check_parameter get as_str p params args) _ h in
      elim (check_parameter-ok p params args first) [
        | inl (e, r, _) ↦ (inl (e, r), check_parameters-All ps params args₁ rest)
        | inr (s, e, f, _) ↦ (inr (s, e, f), check_parameters-All ps params args₁ rest)
      ]

  -- The loop succeeds if every parameter is good.
  pub All-check_parameters :
      (ps : List ParameterSpec) (params : Value) (args : Dict String String)
      → All (IsGood params) ps
      → (args' : Dict String String) × (check_parameters get as_str ps params args ≡ ok args')
  unfolding check_parameters
  All-check_parameters [] params args h = (args, refl)
  All-check_parameters (p ∷ ps) params args (h, hs) =
      let (args₁, e) = IsGood-check_parameter p params args h in
      let (args', e') = All-check_parameters ps params args₁ hs in (args', rw e e')

  -- Where an argument comes from: it was there, or it is the text of a parameter of the list,
  -- which it fits.
  pub check_parameters-args :
      (ps : List ParameterSpec) (params : Value) (args : Dict String String) (name s : String)
      {args' : Dict String String}
      → check_parameters get as_str ps params args ≡ ok args'
      → Dict.get name args' ≡ some s
      → (Dict.get name args ≡ some s)
        ⊎ Some (λ p. (p.name ≡ name) × (text_of params name ≡ some s) × Fits p s) ps
  unfolding check_parameters
  check_parameters-args [] params args name s h g = inl (ground arith)
  check_parameters-args (p ∷ ps) params args name s h g =
      let (args₁, first, rest) = bind_ok (check_parameter get as_str p params args) _ h in
      elim (check_parameters-args ps params args₁ name s rest g) [
        | inr later ↦ inr (inr later)
        | inl here ↦ elim (check_parameter-ok p params args first) [
          | inl (_, _, e) ↦ inl (rw (← e) here)
          | inr (t, e, f, i) ↦ elim (Bool-cases (string_eq.same p.name name)) [
            | inl same ↦
                let n = (eq_iff p.name name).0 same in
                let t≡s : t ≡ s = ground (arith, get-insert p.name name t args) in
                inr (inl (n, subst (λ k. text_of params k ≡ some s) n (rw (← t≡s) e), rw (← t≡s) f))
            | inr other ↦ inl (ground (arith, get-insert p.name name t args))
          ]
        ]
      ]
