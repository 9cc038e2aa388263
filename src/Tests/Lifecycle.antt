-- ===== src/Tests/Lifecycle.antt =====
-- The lifecycle of applications on a toy machine: which processes are up, and two switches that make
-- terminations and limits fail.
use cc_r_device_agent.Prelude.{
  ℕ, ◌+◌, String, ◌≡◌, refl, Bool, true, false, none, some, List, [], ◌∷◌, arith, string_eq,
  if◌then◌else◌, ◌==◌, Bool-cases, Result, ok, err, inl, inr,
}
use cc_r_device_agent.Prelude.Dict
use cc_r_device_agent.Lifecycle.Platform.{Platform, ProcessSpec, ResourceLimitSpec}
use cc_r_device_agent.Lifecycle.Paths.{is_managed}
use cc_r_device_agent.Lifecycle.Apps.{
  installed, running, starting, AppManifest, AppInstance, limits_failed,
  resource_limits_from_manifest,
}
use cc_r_device_agent.Lifecycle.Operations.{do_install, do_start}
use cc_r_device_agent.Lifecycle.Task.{State, handle, run, install, start, stop, uninstall}
use cc_r_device_agent.Lifecycle.Invariant.{IsConsistent}
use cc_r_device_agent.Lifecycle.Safety.{run-Consistent}
use cc_r_device_agent.Lifecycle.Frame.{handle_frame}
use cc_r_device_agent.Lifecycle.Leaks.{IsUntracked, do_install_orphans, do_start_limits_leak}

record Machine : Type 0 where
  next : ℕ
  up : ℕ → Bool
  stuck : Bool
  capped : Bool
  removed : List String

abbrev boot : ProcessSpec → Machine → Result String ℕ × Machine
boot s w =
    if w.up w.next
    then (err "no pid", w)
    else (ok w.next, record w { next = w.next + 1; up = λ q. if w.next == q then true else w.up q })

abbrev limit : ℕ → ResourceLimitSpec → Machine → Result String (Unit {0}) × Machine
limit p l w = if w.capped then (err "cgroup", w) else (ok tt, w)

abbrev kill : ℕ → Machine → Result String (Unit {0}) × Machine
kill p w =
    if w.stuck
    then (err "stuck", w)
    else (ok tt, record w { up = λ q. if p == q then false else w.up q })

boot_ok :
    (s : ProcessSpec) (w : Machine) (p : ℕ)
    → (boot s w).0 ≡ ok p
    → (w.up p ≡ false) × ((q : ℕ) → (boot s w).1.up q ≡ (if p == q then true else w.up q))
boot_ok s w p h = elim (Bool-cases (w.up w.next)) [
  | inl e ↦ absurd (ground arith)
  | inr e ↦ (ground arith, λ q. ground arith)
]

boot_err :
    (s : ProcessSpec) (w : Machine) (e : String)
    → (boot s w).0 ≡ err e
    → (q : ℕ) → (boot s w).1.up q ≡ w.up q
boot_err s w e h q = ground arith

limit_up : (p : ℕ) (l : ResourceLimitSpec) (w : Machine) (q : ℕ) → (limit p l w).1.up q ≡ w.up q
limit_up p l w q = ground arith

kill_ok :
    (p : ℕ) (w : Machine)
    → (kill p w).0 ≡ ok tt
    → (q : ℕ) → (kill p w).1.up q ≡ (if p == q then false else w.up q)
kill_ok p w h q = ground arith

kill_err :
    (p : ℕ) (w : Machine) (e : String) → (kill p w).0 ≡ err e → (q : ℕ) → (kill p w).1.up q ≡ w.up q
kill_err p w e h q = ground arith

abbrev toy : Platform
toy = record {
  World = Machine;
  exists = λ w path. true;
  start = boot;
  apply_to_pid = limit;
  terminate = kill;
  remove_dir_all = λ d w. record w { removed = d ∷ w.removed };
  now = λ w. 0;
  live = λ w p. w.up p;
  start_ok = boot_ok;
  start_err = boot_err;
  apply_live = limit_up;
  terminate_ok = kill_ok;
  terminate_err = kill_err;
  remove_live = λ d w q. refl;
}

abbrev idle : Machine
idle = record { next = 100; up = λ p. false; stuck = false; capped = false; removed = [] }

abbrev weather : AppManifest
weather = record {
  app_id = "weather";
  app_name = "Weather";
  version = "1.0";
  executable = "/opt/weather/bin";
  work_dir = "/var/lib/cc-rdeviceagent/apps/weather";
  args = [];
  env = [];
  max_restarts = 3;
  restart_backoff_secs = 5;
  memory_limit_mb = some 64;
  cpu_limit_pct = none;
}

abbrev empty : State toy
empty = record { apps = []; world = idle }

empty-IsConsistent : IsConsistent toy empty.apps empty.world
unfolding Dict.get
empty-IsConsistent = record {
  keyed = λ id i h. absurd (ground arith);
  reached = λ id i h. absurd (ground arith);
  tracked = λ id i p h. absurd (ground arith);
  distinct = λ id j i k p h. absurd (ground arith);
}

abbrev up_state : State toy
up_state = run toy (install weather ∷ start "weather" ∷ []) empty

abbrev up_entry : AppInstance
up_entry = record {
  app_id = "weather";
  app_name = "Weather";
  version = "1.0";
  manifest = some weather;
  state = running;
  pid = some 100;
  last_start = some 0;
}

abbrev ready : AppInstance
ready = record up_entry { state = installed; pid = none; last_start = none }

up_found : Dict.get "weather" up_state.apps ≡ some up_entry
unfolding run handle do_install do_start resource_limits_from_manifest Dict.get Dict.insert
up_found = refl

up-IsConsistent : IsConsistent toy up_state.apps up_state.world
up-IsConsistent =
    run-Consistent toy (install weather ∷ start "weather" ∷ []) empty empty-IsConsistent

-- The prefix is one of texts between slashes, without a resolution of `..`.
parent_is_managed : is_managed "/var/lib/cc-rdeviceagent/apps/../../../etc" ≡ true
unfolding is_managed
parent_is_managed = refl

root_is_managed : is_managed "/var/lib/cc-rdeviceagent/apps" ≡ true
unfolding is_managed
root_is_managed = refl

elsewhere_is_not : is_managed "/opt/weather" ≡ false
unfolding is_managed
elsewhere_is_not = refl

run-Consistent_example :
    let s = run toy (stop "weather" ∷ uninstall "weather" ∷ []) up_state in
    IsConsistent toy s.apps s.world
run-Consistent_example =
    run-Consistent toy (stop "weather" ∷ uninstall "weather" ∷ []) up_state up-IsConsistent

handle_frame_example :
    Dict.get "weather" (handle toy (uninstall "clock") up_state).0.apps
    ≡ Dict.get "weather" up_state.apps
handle_frame_example = handle_frame toy (uninstall "clock") up_state "weather" refl

do_install_orphans_example :
    let o = do_install toy up_state.apps weather up_state.world in
    (o.2 ≡ ok tt) × (o.1.up 100 ≡ true) × IsUntracked toy o.0 100
do_install_orphans_example =
    do_install_orphans toy up_state.apps up_state.world weather up_entry 100 up-IsConsistent refl
      up_found refl

abbrev full : State toy
full = record { apps = []; world = record idle { capped = true } }

full-IsConsistent : IsConsistent toy full.apps full.world
unfolding Dict.get
full-IsConsistent = record {
  keyed = λ id i h. absurd (ground arith);
  reached = λ id i h. absurd (ground arith);
  tracked = λ id i p h. absurd (ground arith);
  distinct = λ id j i k p h. absurd (ground arith);
}

abbrev ready_state : State toy
ready_state = run toy (install weather ∷ []) full

ready-IsConsistent : IsConsistent toy ready_state.apps ready_state.world
ready-IsConsistent = run-Consistent toy (install weather ∷ []) full full-IsConsistent

do_start_limits_leak_example :
    let o = do_start toy ready_state.apps "weather" ready_state.world in
    (o.2 ≡ err (limits_failed "cgroup"))
    × (o.1.up 100 ≡ true)
    × (Dict.get "weather" o.0 ≡ some (record ready { manifest = some weather; state = starting }))
    × IsUntracked toy o.0 100
do_start_limits_leak_example =
    do_start_limits_leak toy ready_state.apps ready_state.world "weather" ready weather 100
      (record { memory_bytes = some 67108864; cpu_millis = none; open_files = none }) "cgroup"
      ready-IsConsistent (unfold run handle do_install Dict.get Dict.insert in refl) refl refl
      (unfold run handle do_install Dict.get in refl) (unfold resource_limits_from_manifest in refl)
      (unfold run handle do_install Dict.get in refl)
