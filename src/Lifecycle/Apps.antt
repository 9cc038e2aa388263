-- ===== src/Lifecycle/Apps.antt =====
-- src/app_lifecycle.rs: the states, the manifest, `do_register` and the limits. Paths are texts.
use Prim.Native.Nat.{min}
use cc_r_device_agent.Prelude.{
  ℕ, ◌*◌, ◌^◌, ◌-◌, String, Bool, true, false, ◌||◌, Option, none, some, List, is_some,
  if◌then◌else◌, Result, ok, string_eq,
}
use cc_r_device_agent.Prelude.Dict
use cc_r_device_agent.Prelude.Dict.{Dict}
use mathlib.Core.Option
use cc_r_device_agent.Lifecycle.Platform.{ProcessSpec, ResourceLimitSpec}

pub data AppState : Type 0 where
  registered installing installed starting running stopping stopped : AppState
  failed : String → AppState
  uninstalling uninstalled : AppState

pub record AppManifest : Type 0 where
  pub app_id : String
  pub app_name : String
  pub version : String
  pub executable : String
  pub work_dir : String
  pub args : List String
  pub env : List (String × String)
  pub max_restarts : ℕ
  pub restart_backoff_secs : ℕ
  pub memory_limit_mb : Option ℕ
  pub cpu_limit_pct : Option ℕ

pub record AppInstance : Type 0 where
  pub app_id : String
  pub app_name : String
  pub version : String
  pub manifest : Option AppManifest
  pub state : AppState
  pub pid : Option ℕ
  pub last_start : Option ℕ

pub data LifecycleError : Type 0 where
  executable_not_found unknown_app app_is_uninstalled not_installed : LifecycleError
  start_failed limits_failed terminate_failed : String → LifecycleError

abbrev pub Apps : Type 0
Apps = Dict String AppInstance

abbrev pub Reply : Type 0
Reply = Result LifecycleError (Unit {0})

-- The states in which `register` leaves the state as it is.
unfoldable pub keeps_state : AppState → Bool
keeps_state installed = true
keeps_state starting = true
keeps_state running = true
keeps_state stopping = true
keeps_state stopped = true
keeps_state _ = false

unfoldable pub do_register : Apps → String → String → String → Apps × Reply
unfolding keeps_state
do_register apps app_id app_name version = elim (Dict.get app_id apps) [
  | some i ↦ (
    Dict.insert app_id
        (record i {
          app_name = app_name;
          version = version;
          state = if keeps_state i.state then i.state else registered;
        })
        apps,
    ok tt,
  )
  | none ↦ (
    Dict.insert app_id
        (record {
          app_id = app_id;
          app_name = app_name;
          version = version;
          manifest = none;
          state = registered;
          pid = none;
          last_start = none;
        })
        apps,
    ok tt,
  )
]

-- `u64::saturating_mul`.
abbrev saturating_mul : ℕ → ℕ → ℕ
saturating_mul a b = min (a * b) (2 ^ 64 - 1)

unfoldable pub resource_limits_from_manifest : AppManifest → Option ResourceLimitSpec
resource_limits_from_manifest m =
    let memory =
      Option.map (λ mb. saturating_mul (saturating_mul mb 1024) 1024) m.memory_limit_mb in
    let cpu = Option.map (λ pct. saturating_mul pct 10) m.cpu_limit_pct in
    if is_some memory || is_some cpu
    then some (record { memory_bytes = memory; cpu_millis = cpu; open_files = none })
    else none

abbrev pub spec_of : AppManifest → ProcessSpec
spec_of m = record { program = m.executable; args = m.args; env = m.env; cwd = some m.work_dir }
