-- ===== src/Lifecycle/Starting.antt =====
-- Registering, installing and starting keep the table consistent.
use cc_r_device_agent.Prelude.{
  ℕ, String, ◌≡◌, refl, ◌∙◌, ap, inl, inr, Bool, true, false, none, some, arith, string_eq,
  if◌then◌else◌, Bool-cases, Option-cases, Result-cases, ◌==◌,
}
use cc_r_device_agent.Prelude.Dict
use cc_r_device_agent.Lifecycle.Platform.{Platform}
use cc_r_device_agent.Lifecycle.Apps.{
  AppState, registered, starting, running, uninstalling, uninstalled, AppManifest, AppInstance,
  Apps, keeps_state, do_register, resource_limits_from_manifest, spec_of,
}
use cc_r_device_agent.Lifecycle.Operations.{
  Outcome, do_install, record_start, finish_start, launch, do_start, start_by_state,
}
use cc_r_device_agent.Lifecycle.Invariant.{
  is_reached, IsConsistent, Fits, OthersLive, insert-IsConsistent,
}

module _ (pal : Platform) where
  open pal use {World, live}

  abbrev pub Keeps : Outcome pal → Type 0
  Keeps o = IsConsistent pal o.0 o.1

  pub same_world :
      (apps : Apps) (w : World) (id : String) → IsConsistent pal apps w → OthersLive pal apps w id
  same_world apps w id h j k p ne g e = (h.tracked j k p g e).1

  -- An entry without a process.
  pub idle :
      (apps : Apps) (w w' : World) (id : String) (i : AppInstance)
      → i.app_id ≡ id
      → is_reached i.state ≡ true
      → i.pid ≡ none
      → Fits pal apps w w' id i
  idle apps w w' id i key state no_pid = record {
    own_key = key;
    own_state = state;
    own_pid = λ p e. absurd (ground arith);
    own_fresh = λ p e. absurd (ground arith);
  }

  registered_state :
      (s : AppState)
      → is_reached s ≡ true
      → is_reached (if keeps_state s then s else registered) ≡ true
  unfolding keeps_state
  registered_state s h = ground arith

  pub do_register-IsConsistent :
      (apps : Apps) (w : World) (id name version : String)
      → IsConsistent pal apps w
      → IsConsistent pal (do_register apps id name version).0 w
  unfolding do_register
  do_register-IsConsistent apps w id name version h = elim (Option-cases (Dict.get id apps)) [
    | inl e ↦
        rw (e, do_register)
          (insert-IsConsistent pal apps w w id _ h (idle apps w w id _ refl refl refl)
            (same_world apps w id h))
    | inr (i, e) ↦
        rw (e, do_register)
          (insert-IsConsistent pal apps w w id _ h
            (record {
              own_key = h.keyed id i e;
              own_state = registered_state i.state (h.reached id i e);
              own_pid = λ p q. (ground (arith, h.tracked id i p e q), (h.tracked id i p e q).1);
              own_fresh = λ p q. inr (i, e, q);
            })
            (same_world apps w id h))
  ]

  pub do_install-IsConsistent :
      (apps : Apps) (w : World) (m : AppManifest)
      → IsConsistent pal apps w
      → Keeps (do_install pal apps m w)
  unfolding do_install
  do_install-IsConsistent apps w m h = elim (Bool-cases (pal.exists w m.executable)) [
    | inr x ↦ rw x h
    | inl x ↦ elim (Option-cases (Dict.get m.app_id apps)) [
      | inl e ↦ rw x (
          rw (e, do_install)
            (insert-IsConsistent pal apps w w m.app_id _ h (idle apps w w m.app_id _ refl refl refl)
              (same_world apps w m.app_id h)))
      | inr (i, e) ↦ rw x (
          rw (e, do_install)
            (insert-IsConsistent pal apps w w m.app_id _ h
              (idle apps w w m.app_id _ (h.keyed m.app_id i e) refl refl)
              (same_world apps w m.app_id h)))
    ]
  ]

  more_live :
      (apps : Apps) (w w' : World)
      → IsConsistent pal apps w
      → ((q : ℕ) → live w q ≡ true → live w' q ≡ true)
      → IsConsistent pal apps w'
  more_live apps w w' h grow = record {
    keyed = h.keyed;
    reached = h.reached;
    tracked = λ id i p g e. ((h.tracked id i p g e).0, grow p (h.tracked id i p g e).1);
    distinct = h.distinct;
  }

  -- The entry of an application that has just started.
  just_started :
      (apps : Apps) (w w' : World) (id : String) (i : AppInstance) (p : ℕ)
      → IsConsistent pal apps w
      → i.app_id ≡ id
      → live w p ≡ false
      → ((q : ℕ) → live w' q ≡ (if p == q then true else live w q))
      → Keeps (record_start pal apps id i p w')
  just_started apps w w' id i p h key fresh grown =
      insert-IsConsistent pal apps w w' id _ h
        (record {
          own_key = key;
          own_state = refl;
          own_pid = λ q e. (refl, ground (arith, grown q));
          own_fresh = λ q e. inl (ground arith);
        })
        (λ j k q ne g e. ground (arith, grown q, h.tracked j k q g e))

  finish_start-Keeps :
      (apps : Apps) (w w' : World) (id : String) (i : AppInstance) (m : AppManifest) (p : ℕ)
      → IsConsistent pal apps w
      → i.app_id ≡ id
      → live w p ≡ false
      → ((q : ℕ) → live w' q ≡ (if p == q then true else live w q))
      → Keeps (finish_start pal apps id i m p w')
  unfolding finish_start
  finish_start-Keeps apps w w' id i m p h key fresh grown =
      elim (Option-cases (resource_limits_from_manifest m)) [
        | inl e ↦ rw (e, finish_start) (just_started apps w w' id i p h key fresh grown)
        | inr (l, e) ↦
            let after = (pal.apply_to_pid p l w').1 in
            let grown' : (q : ℕ) → live after q ≡ (if p == q then true else live w q) =
              λ q. pal.apply_live p l w' q ∙ grown q in
            elim (Result-cases (pal.apply_to_pid p l w').0) [
              | inl (u, r) ↦
                  rw (e, finish_start) (rw r (just_started apps w after id i p h key fresh grown'))
              | inr (x, r) ↦
                  rw (e, finish_start)
                    (rw r (more_live apps w after h (λ q t. ground (arith, grown' q))))
            ]
      ]

  launch-Keeps :
      (apps : Apps) (w : World) (id : String) (i : AppInstance)
      → IsConsistent pal apps w
      → i.app_id ≡ id
      → i.pid ≡ none
      → Keeps (launch pal apps id i w)
  unfolding launch
  launch-Keeps apps w id i h key no_pid = elim (Option-cases i.manifest) [
    | inl e ↦ rw (e, launch) h
    | inr (m, e) ↦
        let starting_i = record i { state = starting } in
        let h' : IsConsistent pal (Dict.insert id starting_i apps) w =
          insert-IsConsistent pal apps w w id starting_i h
            (idle apps w w id starting_i key refl no_pid) (same_world apps w id h) in
        elim (Result-cases (pal.start (spec_of m) w).0) [
          | inl (p, r) ↦
              rw (e, launch)
                (rw r (
                  finish_start-Keeps (Dict.insert id starting_i apps) w (pal.start (spec_of m) w).1
                    id starting_i m p h' key (pal.start_ok (spec_of m) w p r).0
                    (pal.start_ok (spec_of m) w p r).1))
          | inr (x, r) ↦
              rw (e, launch)
                (rw r (
                  more_live (Dict.insert id starting_i apps) w (pal.start (spec_of m) w).1 h'
                    (λ q t. pal.start_err (spec_of m) w x r q ∙ t)))
        ]
  ]

  abbrev pub is_running : AppState → Bool
  is_running running = true
  is_running _ = false

  pub no_pid_unless_running :
      (apps : Apps) (w : World) (id : String) (i : AppInstance)
      → IsConsistent pal apps w
      → Dict.get id apps ≡ some i
      → is_running i.state ≡ false
      → i.pid ≡ none
  no_pid_unless_running apps w id i h g idle_state = elim (Option-cases i.pid) [
    | inl e ↦ e
    | inr (p, e) ↦ absurd (ground (arith, h.tracked id i p g e))
  ]

  start_by_state-Keeps :
      (apps : Apps) (w : World) (id : String) (i : AppInstance) (s : AppState)
      → IsConsistent pal apps w
      → Dict.get id apps ≡ some i
      → i.state ≡ s
      → Keeps (start_by_state pal s apps id i w)
  start_by_state-Keeps apps w id i running h g e = h
  start_by_state-Keeps apps w id i uninstalled h g e = h
  start_by_state-Keeps apps w id i uninstalling h g e = h
  start_by_state-Keeps apps w id i _ h g e =
      launch-Keeps apps w id i h (h.keyed id i g)
        (no_pid_unless_running apps w id i h g (ap is_running e))

  pub do_start-Keeps :
      (apps : Apps) (w : World) (id : String)
      → IsConsistent pal apps w
      → Keeps (do_start pal apps id w)
  unfolding do_start
  do_start-Keeps apps w id h = elim (Option-cases (Dict.get id apps)) [
    | inl e ↦ rw (e, do_start) h
    | inr (i, e) ↦ rw (e, do_start) (start_by_state-Keeps apps w id i i.state h e refl)
  ]
