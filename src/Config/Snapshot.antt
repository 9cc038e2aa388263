-- ===== src/Config/Snapshot.antt =====
-- src/config_manager.rs: the snapshot of a scope and the watcher of an application; and
-- `load_config_scope` of crates/agent-store/src/lib.rs, whose rows are given in the order of the
-- table, since all its callers collect them in a map.
use cc_r_device_agent.Prelude.{
  ℕ, String, Bool, true, false, ◌&&◌, Option, none, some, List, [], ◌∷◌, map, ◌==◌, str_eq,
  string_eq, if◌then◌else◌,
}
use cc_r_device_agent.Prelude.Dict
use cc_r_device_agent.Prelude.Dict.{Dict}
use cc_r_device_agent.Prelude.Sort.{keep}
use cc_r_device_agent.Config.Table.{ConfigVersionRecord, Table, load_latest_config}
use cc_r_device_agent.Config.Manager.{
  ConfigScope, device, agent, app, scope_name, ConfigChangeEvent, map_of, ConfigManager,
  decode_config_value,
}

-- A row with the greatest version of its key in the scope.
abbrev is_latest : String → Table → ConfigVersionRecord → Bool
is_latest scope t r = elim (load_latest_config scope r.key t) [
  | none ↦ false
  | some q ↦ q.version == r.version
]

unfoldable pub load_config_scope : String → Table → List ConfigVersionRecord
load_config_scope scope t = keep (λ r. str_eq r.scope scope && is_latest scope t r) t

module _ (to_json : String → String) (from_json : String → Option String) where
  unfoldable pub collect_rows : List ConfigVersionRecord → Dict String String → Dict String String
  collect_rows [] m = m
  collect_rows (r ∷ rows) m =
      collect_rows rows (elim (decode_config_value to_json from_json r.value_json) [
        | none ↦ m
        | some value ↦ Dict.insert r.key value m
      ])

  unfoldable pub snapshot : ConfigScope → ConfigManager → Dict String String
  unfolding collect_rows load_config_scope
  snapshot scope m = elim m.store [
    | some t ↦ collect_rows (load_config_scope (scope_name scope) t) []
    | none ↦ map (λ e. (e.0, e.1.0)) (map_of scope m.inner)
  ]

-- What a watcher lets through.
unfoldable pub is_relevant : String → ConfigChangeEvent → Bool
is_relevant app_id ev = elim ev.scope [ device ↦ true | agent ↦ true | app id ↦ str_eq id app_id ]

-- What comes out of the channel: an event, or that the watcher has lagged behind by some events.
pub data Received : Type 0 where
  event : ConfigChangeEvent → Received
  lagged : ℕ → Received

-- `next_change`, and what is left in the channel; `none` is the closed channel.
unfoldable pub next_change : String → List Received → Option (ConfigChangeEvent × List Received)
unfolding is_relevant
next_change app_id [] = none
next_change app_id (event ev ∷ rest) =
    let later = next_change app_id rest in if is_relevant app_id ev then some (ev, rest) else later
next_change app_id (lagged n ∷ rest) = next_change app_id rest
