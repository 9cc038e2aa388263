-- ===== src/Chain/Mapper.antt =====
-- crates/agent-core/src/chain.rs, `ResourceMapper`: from an RPC path to a resource and an action.
pub mod Rights
use Prim.Native.Char.{Char, code}
use Prim.Native.String
use cc_r_device_agent.Prelude.{
  ℕ, String, Bool, true, false, ◌&&◌, Option, none, some, List, [], ◌∷◌, ◌==◌, if◌then◌else◌,
  str_eq,
}
use cc_r_device_agent.Security.Types.{
  Resource, telemetry, control_command, file_transfer, configuration, app_control, Action, read,
  execute, write,
}

-- `s.rsplit_once(sep)`: what stands before and behind the last separator.
unfoldable pub rsplit_once : ℕ → String → Option (String × String)
rsplit_once sep String.[] = none
rsplit_once sep (String.◌∷◌ c s) = elim (rsplit_once sep s) [
  | some (before, after) ↦ some (String.◌∷◌ c before, after)
  | none ↦ if code c == sep then some ("", s) else none
]

-- The arms of the `match`: service, method, resource, action. An arm with several patterns has an
-- entry for each.
pub record Arm : Type 0 where
  pub service : String
  pub method : String
  pub resource : Resource
  pub action : Action

abbrev arm : String → String → Resource → Action → Arm
arm s m r a = record { service = s; method = m; resource = r; action = a }

abbrev device_control : String
device_control = "/cc.grpc.v1.DeviceControl"

abbrev transfer : String
transfer = "/cc.grpc.v1.FileTransfer"

unfoldable pub arms : List Arm
arms =
    arm device_control "StartApp" app_control execute
    ∷ arm device_control "CloseApp" app_control execute
    ∷ arm device_control "RestartApp" app_control execute
    ∷ arm device_control "Reboot" control_command execute
    ∷ arm device_control "Shutdown" control_command execute
    ∷ arm device_control "ExecuteCommand" control_command execute
    ∷ arm device_control "GetSystemState" telemetry read
    ∷ arm device_control "GetAllProcessInfo" telemetry read
    ∷ arm device_control "GetServerVersion" telemetry read
    ∷ arm device_control "GetServicePath" telemetry read
    ∷ arm device_control "GetAppLauncherPath" telemetry read
    ∷ arm device_control "GetNetworkInterfaces" telemetry read
    ∷ arm device_control "GetConnectionInformations" telemetry read
    ∷ arm device_control "GetTcpListenerInfos" telemetry read
    ∷ arm device_control "GetUdpListenerInfos" telemetry read
    ∷ arm device_control "GetCurrentTelemetrySchema" telemetry read
    ∷ arm device_control "GetTelemetryProfiles" telemetry read
    ∷ arm device_control "CaptureScreen" telemetry read
    ∷ arm device_control "SetWatchingApp" configuration write
    ∷ arm device_control "ReplaceTelemetryProfiles" configuration write
    ∷ arm device_control "GetFileInfo" file_transfer write
    ∷ arm device_control "RenameFile" file_transfer write
    ∷ arm transfer "Upload" file_transfer write
    ∷ arm transfer "Download" file_transfer read
    ∷ []

unfoldable pub find_arm : String → String → List Arm → Option (Resource × Action)
find_arm svc method [] = none
find_arm svc method (a ∷ as') =
    if str_eq a.service svc && str_eq a.method method
    then some (a.resource, a.action)
    else find_arm svc method as'

-- `ResourceMapper::map`.
unfoldable pub map : String → Option (Resource × Action)
unfolding rsplit_once find_arm arms
map path = elim (rsplit_once b'/' path) [
  | none ↦ none
  | some (svc, method) ↦ find_arm svc method arms
]
