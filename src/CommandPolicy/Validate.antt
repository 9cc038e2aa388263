-- ===== src/CommandPolicy/Validate.antt =====
-- `CommandPolicy::validate` as a whole: which requests pass, and what a validated command carries.
use Prim.Native.String.{len}
use cc_r_device_agent.Prelude.{
  String, ◌≡◌, ◌≢◌, ◌≤◌, ◌↔◌, inl, inr, true, false, Option, some, List, [], ◌∷◌, arith, All,
  bind_ok, ok, ◌>>=◌, Bool-cases, Option-cases, string_eq, eq_iff, any, ap,
}
use cc_r_device_agent.Prelude.Dict
use cc_r_device_agent.Prelude.Dict.{Dict}
use cc_r_device_agent.Security.Types.{Role, readonly, Principal, role_beq, role_beq_iff}
use cc_r_device_agent.CommandPolicy.{
  CommandTemplate, ValidatedCommand, CommandPolicy, argument, is_blank,
  contains_shell_metacharacter, check_text, check_parameter, check_parameters, validate,
  default_policy,
}
use cc_r_device_agent.CommandPolicy.Params.{
  Fits, Some, IsGood, text_of, check_parameters-All, All-check_parameters, check_parameters-args,
}

any-Some : (r : Role) (rs : List Role) → any (λ x. role_beq x r) rs ≡ true → Some (λ x. x ≡ r) rs
any-Some r [] h = cc
any-Some r (x ∷ rs) h = elim (Bool-cases (role_beq x r)) [
  | inl e ↦ inl ((role_beq_iff x r).0 e)
  | inr e ↦ inr (any-Some r rs (ground arith))
]

Some-any : (r : Role) (rs : List Role) → Some (λ x. x ≡ r) rs → any (λ x. role_beq x r) rs ≡ true
Some-any r [] h = absurd h
Some-any r (x ∷ rs) (inl e) = rw ((role_beq_iff x r).1 e)
Some-any r (x ∷ rs) (inr h) = ground (arith, Some-any r rs h)

no_args : (name s : String) → Dict.get name [] ≡ some s → ⊥
unfolding Dict.get
no_args name s h = cc

module _ {Value : Type 0} (get : Value → String → Option Value)
    (as_str : Value → Option String) where
  -- The command is in the whitelist, its template allows the role, and every parameter of the
  -- template is given a text that fits or is optional and not given.
  abbrev pub IsAdmissible : CommandPolicy → Principal → String → Value → CommandTemplate → Type 0
  IsAdmissible policy principal command_id params t =
      (Dict.get command_id policy.commands ≡ some t)
      × Some (λ r. r ≡ principal.role) t.allowed_roles
      × All (IsGood get as_str params) t.parameters

  -- The command that a template and its arguments make.
  abbrev command_of : CommandTemplate → Dict String String → ValidatedCommand
  command_of t args = record {
    command_id = t.command_id;
    args = args;
    timeout_ms = t.timeout_ms;
    resource_limits = t.resource_limits;
    sandbox_profile = t.sandbox_profile;
  }

  validate-template :
      (policy : CommandPolicy) (principal : Principal) (command_id : String) (params : Value)
      (c : ValidatedCommand)
      → validate get as_str policy principal command_id params ≡ ok c
      → (t : CommandTemplate) × (args : Dict String String) × (Dict.get command_id policy.commands
          ≡ some t)
        × (any (λ r. role_beq r principal.role) t.allowed_roles ≡ true)
        × (check_parameters get as_str t.parameters params [] ≡ ok args)
        × (c ≡ command_of t args)
  unfolding validate
  validate-template policy principal command_id params c h =
      elim (Option-cases (Dict.get command_id policy.commands)) [
        | inl e ↦ absurd (ground arith)
        | inr (t, e) ↦ elim (Bool-cases (any (λ r. role_beq r principal.role) t.allowed_roles)) [
          | inr q ↦ absurd (ground arith)
          | inl q ↦
              let k : (check_parameters get as_str t.parameters params [] >>= λ args.
              ok (command_of t args))
                  ≡ ok c =
                ground arith in
              let (args, ok_args, made) = bind_ok _ _ k in (t, args, e, q, ok_args, ground arith)
        ]
      ]

  template-validate :
      (policy : CommandPolicy) (principal : Principal) (command_id : String) (params : Value)
      (t : CommandTemplate) (args : Dict String String)
      → Dict.get command_id policy.commands ≡ some t
      → any (λ r. role_beq r principal.role) t.allowed_roles ≡ true
      → check_parameters get as_str t.parameters params [] ≡ ok args
      → validate get as_str policy principal command_id params ≡ ok (command_of t args)
  unfolding validate
  template-validate policy principal command_id params t args found role made = ground arith

  -- A request is validated exactly if it is admissible: nothing else passes, and nothing that is
  -- admissible is refused.
  pub validate-ok_iff :
      (policy : CommandPolicy) (principal : Principal) (command_id : String) (params : Value)
      → ((c : ValidatedCommand) × (validate get as_str policy principal command_id params ≡ ok c))
        ↔ ((t : CommandTemplate) × IsAdmissible policy principal command_id params t)
  validate-ok_iff policy principal command_id params = (
    λ v.
        let (t, args, found, role, good, _) =
          validate-template policy principal command_id params v.0 v.1 in
        (
          t,
          (
            found,
            any-Some principal.role t.allowed_roles role,
            check_parameters-All get as_str t.parameters params [] good,
          ),
        ),
    λ a.
        let (found, role, good) = a.1 in
        let (args, made) = All-check_parameters get as_str a.0.parameters params [] good in
        (
          command_of a.0 args,
          template-validate policy principal command_id params a.0 args found
              (Some-any principal.role a.0.allowed_roles role) made,
        ),
  )

  -- Every argument of a validated command is the text that the request gave under that name, and
  -- fits a parameter of that name in the command's template; the limits are those of the template.
  pub validate-args :
      (policy : CommandPolicy) (principal : Principal) (command_id : String) (params : Value)
      (c : ValidatedCommand) (name s : String)
      → validate get as_str policy principal command_id params ≡ ok c
      → argument c name ≡ some s
      → (t : CommandTemplate) × (Dict.get command_id policy.commands ≡ some t)
        × (c.timeout_ms ≡ t.timeout_ms)
        × (c.resource_limits ≡ t.resource_limits)
        × (c.sandbox_profile ≡ t.sandbox_profile)
        × Some
            (λ p. (p.name ≡ name) × (text_of get as_str params name ≡ some s) × Fits p s)
            t.parameters
  unfolding argument
  validate-args policy principal command_id params c name s h g =
      let (t, args, found, _, good, e) = validate-template policy principal command_id params c h in
      elim (check_parameters-args get as_str t.parameters params [] name s good (rw e at g)) [
        | inr here ↦ (
          t,
          found,
          ap (λ x. x.timeout_ms) e,
          ap (λ x. x.resource_limits) e,
          ap (λ x. x.sandbox_profile) e,
          here,
        )
        | inl there ↦ absurd (no_args name s there)
      ]

  -- Under the default policy only `restart_process` is validated, never for the role `readonly`,
  -- and always with a process name that is not blank, has at most 128 bytes and no shell
  -- metacharacter.
  pub default_policy-validate :
      (principal : Principal) (command_id : String) (params : Value) (c : ValidatedCommand)
      → validate get as_str default_policy principal command_id params ≡ ok c
      → (principal.role ≢ readonly)
        × (command_id ≡ "restart_process")
        × ((s : String) × (argument c "process_name" ≡ some s)
            × (text_of get as_str params "process_name" ≡ some s)
            × (is_blank s ≡ false)
            × (len s ≤ 128)
            × (contains_shell_metacharacter s ≡ false))
  unfolding validate default_policy check_parameters check_parameter check_text argument Dict.get
      Dict.insert
  default_policy-validate principal command_id params c h =
      elim (Option-cases (get params "process_name")) [
        | inl e ↦ absurd (ground arith)
        | inr (v, e) ↦ elim (Option-cases (as_str v)) [
          | inl e' ↦ absurd (ground arith)
          | inr (s, e') ↦ (
            ground arith,
            ground (arith, eq_iff "restart_process" command_id),
            (
              s,
              ground (arith, eq_iff "process_name" "process_name"),
              rw (e, text_of) e',
              ground arith,
              ground arith,
              ground arith,
            ),
          )
        ]
      ]
