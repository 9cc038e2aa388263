-- ===== src/Lifecycle/Operations.antt =====
-- src/app_lifecycle.rs: install, start, stop and uninstall, over the platform. Each returns the
-- table of applications, the world and the reply.
use cc_r_device_agent.Prelude.{ℕ, String, Option, none, some, if◌then◌else◌, ok, err, string_eq}
use cc_r_device_agent.Prelude.Dict
use cc_r_device_agent.Lifecycle.Platform.{Platform}
use cc_r_device_agent.Lifecycle.Paths.{is_managed}
use cc_r_device_agent.Lifecycle.Apps.{
  AppState, installed, starting, running, stopping, stopped, uninstalling, uninstalled, AppManifest,
  AppInstance, executable_not_found, unknown_app, app_is_uninstalled, not_installed, start_failed,
  limits_failed, terminate_failed, Apps, Reply, resource_limits_from_manifest, spec_of,
}

-- The process that `do_uninstall` ends.
abbrev pub pid_to_end : AppState → Option ℕ → Option ℕ
pid_to_end running pid = pid
pid_to_end starting pid = pid
pid_to_end _ pid = none

module _ (pal : Platform) where
  open pal use {World, exists, start, apply_to_pid, terminate, remove_dir_all, now}

  abbrev pub Outcome : Type 0
  Outcome = Apps × World × Reply

  unfoldable pub do_install : Apps → AppManifest → World → Outcome
  do_install apps m w =
      if exists w m.executable
      then elim (Dict.get m.app_id apps) [
        | some i ↦ (
          Dict.insert m.app_id
              (record i {
                app_name = m.app_name;
                version = m.version;
                manifest = some m;
                state = installed;
                pid = none;
                last_start = none;
              })
              apps,
          w,
          ok tt,
        )
        | none ↦ (
          Dict.insert m.app_id
              (record {
                app_id = m.app_id;
                app_name = m.app_name;
                version = m.version;
                manifest = some m;
                state = installed;
                pid = none;
                last_start = none;
              })
              apps,
          w,
          ok tt,
        )
      ]
      else (apps, w, err executable_not_found)

  -- The bookkeeping at the end of `do_start`.
  abbrev pub record_start : Apps → String → AppInstance → ℕ → World → Outcome
  record_start apps app_id i pid w = (
    Dict.insert app_id (record i { pid = some pid; state = running; last_start = some (now w) })
        apps,
    w,
    ok tt,
  )

  -- `do_start` behind the start of the process: the limits, then the bookkeeping.
  unfoldable pub finish_start : Apps → String → AppInstance → AppManifest → ℕ → World → Outcome
  finish_start apps app_id i m pid w = elim (resource_limits_from_manifest m) [
    | none ↦ record_start apps app_id i pid w
    | some limits ↦
        let (applied, w') = apply_to_pid pid limits w in
        elim applied [
          | ok _ ↦ record_start apps app_id i pid w'
          | err e ↦ (apps, w', err (limits_failed e))
        ]
  ]

  -- `do_start` of an instance that is neither running nor uninstalled.
  unfoldable pub launch : Apps → String → AppInstance → World → Outcome
  unfolding finish_start
  launch apps app_id i w = elim i.manifest [
    | none ↦ (apps, w, err not_installed)
    | some m ↦
        let starting_i = record i { state = starting } in
        let apps' = Dict.insert app_id starting_i apps in
        let (started, w') = start (spec_of m) w in
        elim started [
          | err e ↦ (apps', w', err (start_failed e))
          | ok pid ↦ finish_start apps' app_id starting_i m pid w'
        ]
  ]

  abbrev pub start_by_state : AppState → Apps → String → AppInstance → World → Outcome
  start_by_state running apps app_id i w = (apps, w, ok tt)
  start_by_state uninstalled apps app_id i w = (apps, w, err app_is_uninstalled)
  start_by_state uninstalling apps app_id i w = (apps, w, err app_is_uninstalled)
  start_by_state _ apps app_id i w = launch apps app_id i w

  unfoldable pub do_start : Apps → String → World → Outcome
  unfolding launch
  do_start apps app_id w = elim (Dict.get app_id apps) [
    | none ↦ (apps, w, err unknown_app)
    | some i ↦ start_by_state i.state apps app_id i w
  ]

  -- `pid.take()` comes first: the instance has lost its pid also where the termination fails.
  unfoldable pub do_stop : Apps → String → World → Outcome
  do_stop apps app_id w = elim (Dict.get app_id apps) [
    | none ↦ (apps, w, err unknown_app)
    | some i ↦
        let taken = record i { pid = none } in
        let halted = Dict.insert app_id (record taken { state = stopped }) apps in
        elim i.pid [
          | none ↦ (halted, w, ok tt)
          | some pid ↦
              let (ended, w') = terminate pid w in
              elim ended [
                | ok _ ↦ (halted, w', ok tt)
                | err e ↦ (
                  Dict.insert app_id (record taken { state = stopping }) apps,
                  w',
                  err (terminate_failed e),
                )
              ]
        ]
  ]

  -- The install directory goes if it lies under the managed path; then the entry.
  abbrev pub dispose : Apps → String → Option AppManifest → World → Outcome
  dispose apps app_id none w = (Dict.remove app_id apps, w, ok tt)
  dispose apps app_id (some m) w = (
    Dict.remove app_id apps,
    if is_managed m.work_dir then remove_dir_all m.work_dir w else w,
    ok tt,
  )

  unfoldable pub do_uninstall : Apps → String → World → Outcome
  do_uninstall apps app_id w = elim (Dict.get app_id apps) [
    | none ↦ (apps, w, err unknown_app)
    | some i ↦ elim (pid_to_end i.state i.pid) [
      | none ↦ dispose apps app_id i.manifest w
      | some pid ↦
          let (ended, w') = terminate pid w in
          elim ended [
            | ok _ ↦ dispose apps app_id i.manifest w'
            | err e ↦
                (Dict.insert app_id (record i { pid = none }) apps, w', err (terminate_failed e))
          ]
    ]
  ]
