-- ===== src/Config/Manager.antt =====
-- src/config_manager.rs: the scopes in memory, the versions and the manager. A change is broadcast
-- as an event, given back with the new state. Each call is taken to run alone.
use cc_r_device_agent.Prelude.{
  ℕ, ◌+◌, ◌-◌, ◌^◌, String, Bool, true, false, ◌||◌, Option, none, some, [], is_some, or_else,
  str_eq, eq_iff, string_eq, ◌+s◌, if◌then◌else◌, Key, ◌↔◌, ◌≡◌, arith,
}
use Prim.Native.Nat.{min}
use mathlib.Core.Option
use cc_r_device_agent.Prelude.Dict
use cc_r_device_agent.Prelude.Dict.{Dict}
use cc_r_device_agent.Config.Table.{
  ConfigVersionRecord, Table, insert_config_version, load_latest_config,
}

pub data ConfigScope : Type 0 where
  device agent : ConfigScope
  app : String → ConfigScope

-- `Display`.
unfoldable pub scope_name : ConfigScope → String
scope_name device = "device"
scope_name agent = "agent"
scope_name (app id) = "app:" +s id

abbrev pub scope_same : ConfigScope → ConfigScope → Bool
scope_same device device = true
scope_same agent agent = true
scope_same (app a) (app b) = str_eq a b
scope_same _ _ = false

pub scope_same_iff : (a b : ConfigScope) → (scope_same a b ≡ true) ↔ (a ≡ b)
scope_same_iff device device = ground arith
scope_same_iff device agent = ground arith
scope_same_iff device (app b) = ground arith
scope_same_iff agent device = ground arith
scope_same_iff agent agent = ground arith
scope_same_iff agent (app b) = ground arith
scope_same_iff (app a) device = ground arith
scope_same_iff (app a) agent = ground arith
scope_same_iff (app a) (app b) = ground (arith, eq_iff a b)

instance abbrev pub scope_eq : Key ConfigScope
scope_eq = record { same = scope_same; same_iff = scope_same_iff }

pub record ConfigChangeEvent : Type 0 where
  pub scope : ConfigScope
  pub key : String
  pub value : Option String
  pub version : ℕ

abbrev pub ScopeMap : Type 0
ScopeMap = Dict String (String × ℕ)

pub record Inner : Type 0 where
  pub scopes : Dict ConfigScope ScopeMap
  pub global_version : ℕ

-- A map of the scope, or an empty one.
abbrev pub map_of : ConfigScope → Inner → ScopeMap
map_of scope inner = or_else (Dict.get scope inner.scopes) []

unfoldable pub inner_set : ConfigScope → String → String → Inner → Inner × ℕ
inner_set scope key value inner =
    let v = inner.global_version + 1 in
    (
      record {
        scopes = Dict.insert scope (Dict.insert key (value, v) (map_of scope inner)) inner.scopes;
        global_version = v;
      },
      v,
    )

unfoldable pub inner_get : ConfigScope → String → Inner → Option (String × ℕ)
inner_get scope key inner = elim (Dict.get scope inner.scopes) [
  | none ↦ none
  | some m ↦ Dict.get key m
]

-- The version grows also where nothing is removed.
unfoldable pub inner_delete : ConfigScope → String → Inner → Inner × Bool
inner_delete scope key inner = elim (Dict.get scope inner.scopes) [
  | none ↦ (record inner { global_version = inner.global_version + 1 }, false)
  | some m ↦ (
    record {
      scopes = Dict.insert scope (Dict.remove key m) inner.scopes;
      global_version = inner.global_version + 1;
    },
    is_some (Dict.get key m),
  )
]

pub record ConfigManager : Type 0 where
  pub inner : Inner
  pub store : Option Table

abbrev pub new_inner : Inner
new_inner = record { scopes = []; global_version = 0 }

unfoldable pub new : ConfigManager
new = record { inner = new_inner; store = none }

unfoldable pub new_with_store : Table → ConfigManager
new_with_store t = record { inner = new_inner; store = some t }

-- `version.min(i64::MAX as u64)`.
abbrev pub stored_version : ℕ → ℕ
stored_version v = min v (2 ^ 63 - 1)

-- A failed insertion is only logged.
unfoldable pub persist : ConfigScope → String → ℕ → String → Option Table → Option Table
persist scope key version value_json store =
    Option.map
      (λ t.
        (insert_config_version
          (record {
            scope = scope_name scope;
            key = key;
            version = stored_version version;
            value_json = value_json;
            signature = none;
          })
          t).0)
      store

module _ (to_json : String → String) (from_json : String → Option String) where
  unfoldable pub decode_config_value : String → Option String
  decode_config_value value_json =
      if str_eq value_json "null"
      then none
      else elim (from_json value_json) [ some v ↦ some v | none ↦ some value_json ]

  -- The latest row, where there is a store.
  abbrev pub stored : ConfigScope → String → ConfigManager → Option ConfigVersionRecord
  stored scope key m = elim m.store [
    | none ↦ none
    | some t ↦ load_latest_config (scope_name scope) key t
  ]

  unfoldable pub get : ConfigScope → String → ConfigManager → Option String
  get scope key m = elim (stored scope key m) [
    | some r ↦ decode_config_value r.value_json
    | none ↦ Option.map (λ e. e.0) (inner_get scope key m.inner)
  ]

  unfoldable pub get_version : ConfigScope → String → ConfigManager → Option ℕ
  get_version scope key m = elim (stored scope key m) [
    | some r ↦ some r.version
    | none ↦ Option.map (λ e. e.1) (inner_get scope key m.inner)
  ]

  unfoldable pub set :
      ConfigScope → String → String → ConfigManager → ConfigManager × ConfigChangeEvent
  unfolding inner_set persist
  set scope key value m =
      let (inner', version) = inner_set scope key value m.inner in
      (
        record { inner = inner'; store = persist scope key version (to_json value) m.store },
        record { scope = scope; key = key; value = some value; version = version },
      )

  -- `none` is the answer `false`, without an event.
  unfoldable pub delete :
      ConfigScope → String → ConfigManager → ConfigManager × Option ConfigChangeEvent
  unfolding inner_delete persist get
  delete scope key m =
      let existed = is_some (get scope key m) in
      let (inner', removed) = inner_delete scope key m.inner in
      if removed || existed
      then (
        record { inner = inner'; store = persist scope key inner'.global_version "null" m.store },
        some (record { scope = scope; key = key; value = none; version = inner'.global_version }),
      )
      else (record m { inner = inner' }, none)
