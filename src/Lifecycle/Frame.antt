-- ===== src/Lifecycle/Frame.antt =====
-- What a command leaves alone: the entries of the applications that it does not name.
use cc_r_device_agent.Prelude.{
  ℕ, String, ◌≡◌, refl, ◌∙◌, inl, inr, Bool, true, false, Option, none, some, arith, str_eq,
  string_eq, Bool-cases, Option-cases, Result-cases, not,
}
use cc_r_device_agent.Prelude.Dict
use cc_r_device_agent.Prelude.Dict.{get-insert_self, get-insert_ne, get-insert, get-remove}
use cc_r_device_agent.Lifecycle.Platform.{Platform}
use cc_r_device_agent.Lifecycle.Apps.{
  AppState, starting, running, uninstalled, uninstalling, AppManifest, AppInstance, Apps,
  resource_limits_from_manifest, spec_of, do_register,
}
use cc_r_device_agent.Lifecycle.Operations.{
  do_install, do_start, do_stop, do_uninstall, start_by_state, launch, finish_start, dispose,
  pid_to_end,
}
use cc_r_device_agent.Lifecycle.Task.{
  LifecycleCmd, register, install, start, stop, restart, uninstall, get_state, find_by_pid,
  list_apps, State, handle,
}

-- The application that a command names.
abbrev pub named : LifecycleCmd → Option String
named (register id _ _) = some id
named (install m) = some m.app_id
named (start id) = some id
named (stop id) = some id
named (restart id) = some id
named (uninstall id) = some id
named _ = none

not-true : (b : Bool) → not b ≡ true → b ≡ false
not-true b h = ground arith

module _ (pal : Platform) where
  open pal use {World, live}

  -- A table that differs from another at most under one identifier.
  abbrev SameBut : String → Apps → Apps → Type 0
  SameBut id apps apps' = (j : String) → str_eq id j ≡ false → Dict.get j apps' ≡ Dict.get j apps

  insert-SameBut :
      (apps : Apps) (id : String) (i : AppInstance) → SameBut id apps (Dict.insert id i apps)
  insert-SameBut apps id i j ne = get-insert_ne id j i apps ne

  remove-SameBut : (apps : Apps) (id : String) → SameBut id apps (Dict.remove id apps)
  remove-SameBut apps id j ne = rw get-remove (rw ne)

  do_register-SameBut :
      (apps : Apps) (id name version : String)
      → SameBut id apps (do_register apps id name version).0
  unfolding do_register
  do_register-SameBut apps id name version j ne = elim (Option-cases (Dict.get id apps)) [
    | inl e ↦ rw (e, do_register) (insert-SameBut apps id _ j ne)
    | inr (i, e) ↦ rw (e, do_register) (insert-SameBut apps id _ j ne)
  ]

  do_install-SameBut :
      (apps : Apps) (m : AppManifest) (w : World)
      → SameBut m.app_id apps (do_install pal apps m w).0
  unfolding do_install
  do_install-SameBut apps m w j ne = elim (Bool-cases (pal.exists w m.executable)) [
    | inr x ↦ rw x
    | inl x ↦ elim (Option-cases (Dict.get m.app_id apps)) [
      | inl e ↦ rw x (rw (e, do_install) (insert-SameBut apps m.app_id _ j ne))
      | inr (i, e) ↦ rw x (rw (e, do_install) (insert-SameBut apps m.app_id _ j ne))
    ]
  ]

  finish_start-SameBut :
      (apps : Apps) (id : String) (i : AppInstance) (m : AppManifest) (p : ℕ) (w : World)
      → SameBut id apps (finish_start pal apps id i m p w).0
  unfolding finish_start
  finish_start-SameBut apps id i m p w j ne =
      elim (Option-cases (resource_limits_from_manifest m)) [
        | inl e ↦ rw (e, finish_start) (insert-SameBut apps id _ j ne)
        | inr (l, e) ↦ elim (Result-cases (pal.apply_to_pid p l w).0) [
          | inl (u, r) ↦ rw (e, finish_start) (rw r (insert-SameBut apps id _ j ne))
          | inr (x, r) ↦ rw (e, finish_start) (rw r)
        ]
      ]

  launch-SameBut :
      (apps : Apps) (id : String) (i : AppInstance) (w : World)
      → SameBut id apps (launch pal apps id i w).0
  unfolding launch
  launch-SameBut apps id i w j ne = elim (Option-cases i.manifest) [
    | inl e ↦ rw (e, launch)
    | inr (m, e) ↦
        let starting_i = record i { state = starting } in
        let entered = insert-SameBut apps id starting_i j ne in
        elim (Result-cases (pal.start (spec_of m) w).0) [
          | inr (x, r) ↦ rw (e, launch) (rw r entered)
          | inl (p, r) ↦
              rw (e, launch)
                (rw r (
                  finish_start-SameBut (Dict.insert id starting_i apps) id starting_i m p
                    (pal.start (spec_of m) w).1 j ne
                  ∙ entered))
        ]
  ]

  start_by_state-SameBut :
      (s : AppState) (apps : Apps) (id : String) (i : AppInstance) (w : World)
      → SameBut id apps (start_by_state pal s apps id i w).0
  start_by_state-SameBut running apps id i w j ne = refl
  start_by_state-SameBut uninstalled apps id i w j ne = refl
  start_by_state-SameBut uninstalling apps id i w j ne = refl
  start_by_state-SameBut _ apps id i w j ne = launch-SameBut apps id i w j ne

  do_start-SameBut :
      (apps : Apps) (id : String) (w : World) → SameBut id apps (do_start pal apps id w).0
  unfolding do_start
  do_start-SameBut apps id w j ne = elim (Option-cases (Dict.get id apps)) [
    | inl e ↦ rw (e, do_start)
    | inr (i, e) ↦ rw (e, do_start) (start_by_state-SameBut i.state apps id i w j ne)
  ]

  do_stop-SameBut :
      (apps : Apps) (id : String) (w : World) → SameBut id apps (do_stop pal apps id w).0
  unfolding do_stop
  do_stop-SameBut apps id w j ne = elim (Option-cases (Dict.get id apps)) [
    | inl e ↦ rw (e, do_stop)
    | inr (i, e) ↦ elim (Option-cases i.pid) [
      | inl n ↦ rw (e, do_stop) (rw n (insert-SameBut apps id _ j ne))
      | inr (p, n) ↦ elim (Result-cases (pal.terminate p w).0) [
        | inl (u, r) ↦ rw (e, do_stop) (rw n (rw r (insert-SameBut apps id _ j ne)))
        | inr (x, r) ↦ rw (e, do_stop) (rw n (rw r (insert-SameBut apps id _ j ne)))
      ]
    ]
  ]

  dispose-SameBut :
      (apps : Apps) (id : String) (m : Option AppManifest) (w : World)
      → SameBut id apps (dispose pal apps id m w).0
  dispose-SameBut apps id none w j ne = remove-SameBut apps id j ne
  dispose-SameBut apps id (some m) w j ne = remove-SameBut apps id j ne

  do_uninstall-SameBut :
      (apps : Apps) (id : String) (w : World) → SameBut id apps (do_uninstall pal apps id w).0
  unfolding do_uninstall
  do_uninstall-SameBut apps id w j ne = elim (Option-cases (Dict.get id apps)) [
    | inl e ↦ rw (e, do_uninstall)
    | inr (i, e) ↦ elim (Option-cases (pid_to_end i.state i.pid)) [
      | inl n ↦ rw (e, do_uninstall) (rw n (dispose-SameBut apps id i.manifest w j ne))
      | inr (p, n) ↦ elim (Result-cases (pal.terminate p w).0) [
        | inl (u, r) ↦
            rw (e, do_uninstall)
              (rw n (rw r (dispose-SameBut apps id i.manifest (pal.terminate p w).1 j ne)))
        | inr (x, r) ↦ rw (e, do_uninstall) (rw n (rw r (insert-SameBut apps id _ j ne)))
      ]
    ]
  ]

  -- The command does not name the application.
  abbrev pub is_other : LifecycleCmd → String → Bool
  is_other c j = elim (named c) [ none ↦ true | some id ↦ not (str_eq id j) ]

  -- A command leaves the entries of all applications but the one that it names as they are.
  pub handle_frame :
      (c : LifecycleCmd) (s : State pal) (j : String)
      → is_other c j ≡ true
      → Dict.get j (handle pal c s).0.apps ≡ Dict.get j s.apps
  unfolding handle
  handle_frame (register id name version) s j h =
      do_register-SameBut s.apps id name version j (not-true _ h)
  handle_frame (install m) s j h = do_install-SameBut s.apps m s.world j (not-true _ h)
  handle_frame (start id) s j h = do_start-SameBut s.apps id s.world j (not-true _ h)
  handle_frame (stop id) s j h = do_stop-SameBut s.apps id s.world j (not-true _ h)
  handle_frame (restart id) s j h =
      let o = do_stop pal s.apps id s.world in
      do_start-SameBut o.0 id o.1 j (not-true _ h)
      ∙ do_stop-SameBut s.apps id s.world j (not-true _ h)
  handle_frame (uninstall id) s j h = do_uninstall-SameBut s.apps id s.world j (not-true _ h)
  handle_frame (get_state id) s j h = refl
  handle_frame (find_by_pid pid) s j h = refl
  handle_frame list_apps s j h = refl
