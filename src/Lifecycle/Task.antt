-- ===== src/Lifecycle/Task.antt =====
-- src/app_lifecycle.rs, `lifecycle_task`: one command after another against the table.
use cc_r_device_agent.Prelude.{
  ℕ, String, Bool, false, Option, none, some, List, [], ◌∷◌, map, ◌==◌, if◌then◌else◌, string_eq,
}
use mathlib.Core.Option
use cc_r_device_agent.Prelude.Dict
use cc_r_device_agent.Prelude.Dict.{values}
use cc_r_device_agent.Lifecycle.Platform.{Platform}
use cc_r_device_agent.Lifecycle.Apps.{AppState, AppManifest, Apps, Reply, do_register}
use cc_r_device_agent.Lifecycle.Operations.{do_install, do_start, do_stop, do_uninstall}

pub data LifecycleCmd : Type 0 where
  register : String → String → String → LifecycleCmd
  install : AppManifest → LifecycleCmd
  start stop restart uninstall get_state : String → LifecycleCmd
  find_by_pid : ℕ → LifecycleCmd
  list_apps : LifecycleCmd

-- What is sent back on the channel of each command.
pub data Answer : Type 0 where
  done : Reply → Answer
  state_is : Option AppState → Answer
  app_is : Option String → Answer
  apps_are : List (String × AppState) → Answer

abbrev has_pid : Option ℕ → ℕ → Bool
has_pid none pid = false
has_pid (some p) pid = p == pid

-- `values().find(..).map(..)`.
unfoldable pub find_by : ℕ → Apps → Option String
find_by pid [] = none
find_by pid ((id, i) ∷ rest) = if has_pid i.pid pid then some i.app_id else find_by pid rest

module _ (pal : Platform) where
  open pal use {World}

  pub record State : Type 0 where
    pub apps : Apps
    pub world : World

  abbrev pub outcome_state : Apps × World × Reply → State
  outcome_state o = record { apps = o.0; world = o.1 }

  unfoldable pub handle : LifecycleCmd → State → State × Answer
  unfolding find_by
  handle (register app_id app_name version) s =
      let (apps', reply) = do_register s.apps app_id app_name version in
      (record s { apps = apps' }, done reply)
  handle (install m) s = let o = do_install pal s.apps m s.world in (outcome_state o, done o.2)
  handle (start app_id) s =
      let o = do_start pal s.apps app_id s.world in (outcome_state o, done o.2)
  handle (stop app_id) s = let o = do_stop pal s.apps app_id s.world in (outcome_state o, done o.2)
  handle (restart app_id) s =
      let o = do_stop pal s.apps app_id s.world in
      let o' = do_start pal o.0 app_id o.1 in (outcome_state o', done o'.2)
  handle (uninstall app_id) s =
      let o = do_uninstall pal s.apps app_id s.world in (outcome_state o, done o.2)
  handle (get_state app_id) s = (s, state_is (Option.map (λ i. i.state) (Dict.get app_id s.apps)))
  handle (find_by_pid pid) s = (s, app_is (find_by pid s.apps))
  handle list_apps s = (s, apps_are (map (λ i. (i.app_id, i.state)) (values s.apps)))

  unfoldable pub run : List LifecycleCmd → State → State
  run [] s = s
  run (c ∷ cs) s = run cs (handle c s).0
