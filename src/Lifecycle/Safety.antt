-- ===== src/Lifecycle/Safety.antt =====
-- Every command of the lifecycle task keeps the table consistent.
use cc_r_device_agent.Prelude.{List, [], ◌∷◌, string_eq}
use cc_r_device_agent.Lifecycle.Platform.{Platform}
use cc_r_device_agent.Lifecycle.Operations.{do_stop}
use cc_r_device_agent.Lifecycle.Task.{
  LifecycleCmd, register, install, start, stop, restart, uninstall, get_state, find_by_pid,
  list_apps, State, handle, run,
}
use cc_r_device_agent.Lifecycle.Invariant.{IsConsistent}
use cc_r_device_agent.Lifecycle.Starting.{
  do_register-IsConsistent, do_install-IsConsistent, do_start-Keeps,
}
use cc_r_device_agent.Lifecycle.Stopping.{do_stop-Keeps, do_uninstall-Keeps}

module _ (pal : Platform) where
  open pal use {World, live}

  abbrev pub Consistent : State pal → Type 0
  Consistent s = IsConsistent pal s.apps s.world

  handle-Consistent :
      (c : LifecycleCmd) (s : State pal) → Consistent s → Consistent (handle pal c s).0
  unfolding handle
  handle-Consistent (register id name version) s h =
      do_register-IsConsistent pal s.apps s.world id name version h
  handle-Consistent (install m) s h = do_install-IsConsistent pal s.apps s.world m h
  handle-Consistent (start id) s h = do_start-Keeps pal s.apps s.world id h
  handle-Consistent (stop id) s h = do_stop-Keeps pal s.apps s.world id h
  handle-Consistent (restart id) s h =
      let o = do_stop pal s.apps id s.world in
      do_start-Keeps pal o.0 o.1 id (do_stop-Keeps pal s.apps s.world id h)
  handle-Consistent (uninstall id) s h = do_uninstall-Keeps pal s.apps s.world id h
  handle-Consistent (get_state id) s h = h
  handle-Consistent (find_by_pid pid) s h = h
  handle-Consistent list_apps s h = h

  -- Whatever commands the task handles, with whatever the platform answers, the table stays
  -- consistent: entries stand under their own identifier in one of six states, an entry with a
  -- process is running and its process is live, and no process belongs to two applications.
  pub run-Consistent :
      (cs : List LifecycleCmd) (s : State pal) → Consistent s → Consistent (run pal cs s)
  unfolding run
  run-Consistent [] s h = h
  run-Consistent (c ∷ cs) s h = run-Consistent cs (handle pal c s).0 (handle-Consistent c s h)
