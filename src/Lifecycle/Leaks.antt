-- ===== src/Lifecycle/Leaks.antt =====
-- Where a process and its entry in the table part: the paths of the lifecycle operations on which
-- a live process is no longer tracked, or a tracked one is not there.
use cc_r_device_agent.Prelude.{
  ℕ, String, ◌≡◌, refl, sym, ◌∙◌, ap, ◌≢◌, inl, inr, true, false, none, some, arith, eq_iff,
  string_eq, ok, err,
}
use cc_r_device_agent.Prelude.Dict
use cc_r_device_agent.Prelude.Dict.{get-insert_self, get-insert_ne}
use cc_r_device_agent.Lifecycle.Platform.{Platform}
use cc_r_device_agent.Lifecycle.Apps.{
  installed, starting, running, AppManifest, AppInstance, Apps, limits_failed, terminate_failed,
  resource_limits_from_manifest, spec_of,
}
use cc_r_device_agent.Lifecycle.Platform.{ResourceLimitSpec}
use cc_r_device_agent.Lifecycle.Operations.{
  do_install, do_start, do_uninstall, launch, finish_start,
}
use cc_r_device_agent.Lifecycle.Invariant.{IsConsistent, found_in}
use cc_r_device_agent.Lifecycle.Starting.{is_running, no_pid_unless_running}

module _ (pal : Platform) where
  open pal use {World, live}

  -- No entry of the table has the process.
  abbrev pub IsUntracked : Apps → ℕ → Type 0
  IsUntracked apps p = (j : String) (k : AppInstance) → Dict.get j apps ≡ some k → k.pid ≢ some p

  -- An entry without a process has taken the place of the one that had it.
  IsUntracked-replaced :
      (apps : Apps) (w : World) (id : String) (i i' : AppInstance) (p : ℕ)
      → IsConsistent pal apps w
      → Dict.get id apps ≡ some i
      → i.pid ≡ some p
      → i'.pid ≡ none
      → IsUntracked (Dict.insert id i' apps) p
  IsUntracked-replaced apps w id i i' p h g e none' j k gj ej =
      elim (found_in pal apps id j i' k gj) [
        | inl (_, q) ↦ cc (none', ap (λ z. z.pid) (sym q) ∙ ej)
        | inr (ne, q) ↦ cc (ne, (eq_iff id j).1 (h.distinct id j i k p g q e ej))
      ]

  -- A process that was not live before is not in the table.
  IsUntracked-fresh :
      (apps : Apps) (w : World) (id : String) (i' : AppInstance) (p : ℕ)
      → IsConsistent pal apps w
      → live w p ≡ false
      → i'.pid ≡ none
      → IsUntracked (Dict.insert id i' apps) p
  IsUntracked-fresh apps w id i' p h fresh none' j k gj ej = elim (found_in pal apps id j i' k gj) [
    | inl (_, q) ↦ cc (none', ap (λ z. z.pid) (sym q) ∙ ej)
    | inr (ne, q) ↦ cc (fresh, (h.tracked j k p q ej).1)
  ]

  install_over :
      (apps : Apps) (w : World) (m : AppManifest) (i : AppInstance)
      → pal.exists w m.executable ≡ true
      → Dict.get m.app_id apps ≡ some i
      → do_install pal apps m w ≡ (
        Dict.insert m.app_id
            (record i {
              app_name = m.app_name;
              version = m.version;
              manifest = some m;
              state = installed;
              pid = none;
              last_start = none;
            })
            apps,
        w,
        ok tt,
      )
  unfolding do_install
  install_over apps w m i x g = rw x (rw (g, do_install))

  -- In a consistent table, an installation over an application with a process, by a manifest whose
  -- executable exists, succeeds, leaves the process live, and leaves no entry that has it.
  pub do_install_orphans :
      (apps : Apps) (w : World) (m : AppManifest) (i : AppInstance) (p : ℕ)
      → IsConsistent pal apps w
      → pal.exists w m.executable ≡ true
      → Dict.get m.app_id apps ≡ some i
      → i.pid ≡ some p
      → let o = do_install pal apps m w in (o.2 ≡ ok tt) × (live o.1 p ≡ true) × IsUntracked o.0 p
  do_install_orphans apps w m i p h x g e =
      rw (install_over apps w m i x g) (
        refl,
        (h.tracked m.app_id i p g e).1,
        IsUntracked-replaced apps w m.app_id i _ p h g e refl,
      )

  -- If the process of a running application cannot be ended, `do_uninstall` fails and leaves it running
  -- without a process, and a `do_start` that follows succeeds and changes nothing.
  pub do_uninstall_failure_blocks_start :
      (apps : Apps) (w : World) (id : String) (i : AppInstance) (p : ℕ) (x : String)
      → Dict.get id apps ≡ some i
      → i.state ≡ running
      → i.pid ≡ some p
      → (pal.terminate p w).0 ≡ err x
      → let o = do_uninstall pal apps id w in
        (o.2 ≡ err (terminate_failed x))
        × (Dict.get id o.0 ≡ some (record i { pid = none }))
        × (do_start pal o.0 id o.1 ≡ (o.0, o.1, ok tt))
  unfolding do_uninstall do_start
  do_uninstall_failure_blocks_start apps w id i p x g s e t =
      let kept = get-insert_self id (record i { pid = none }) apps in
      (ground arith, ground (arith, kept), ground (arith, kept))

  -- In a consistent table, if the process of an installed application with limits is started but the
  -- limits cannot be applied, `do_start` fails with the new process live and in no entry, and leaves
  -- the application starting.
  pub do_start_limits_leak :
      (apps : Apps) (w : World) (id : String) (i : AppInstance) (m : AppManifest) (p : ℕ)
      (l : ResourceLimitSpec) (x : String)
      → IsConsistent pal apps w
      → Dict.get id apps ≡ some i
      → i.state ≡ installed
      → i.manifest ≡ some m
      → (pal.start (spec_of m) w).0 ≡ ok p
      → resource_limits_from_manifest m ≡ some l
      → (pal.apply_to_pid p l (pal.start (spec_of m) w).1).0 ≡ err x
      → let o = do_start pal apps id w in
        (o.2 ≡ err (limits_failed x))
        × (live o.1 p ≡ true)
        × (Dict.get id o.0 ≡ some (record i { manifest = some m; state = starting }))
        × IsUntracked o.0 p
  unfolding do_start
  do_start_limits_leak apps w id i m p l x h g s e t r f =
      let no_pid = no_pid_unless_running pal apps w id i h g (ap (is_running pal) s) in
      let w' = (pal.start (spec_of m) w).1 in
      let (fresh, grown) = pal.start_ok (spec_of m) w p t in
      rw (g, do_start)
        (rw s (
          rw (e, launch)
            (rw t (
              rw (r, finish_start)
                (rw f (
                  refl,
                  pal.apply_live p l w' p ∙ ground (arith, grown p),
                  get-insert_self id (record i { state = starting }) apps
                      ∙ ap (λ z. some (record i { manifest = z; state = starting })) e,
                  IsUntracked-fresh apps w id (record i { state = starting }) p h fresh no_pid,
                ))))))
