-- ===== src/Tests/Config.antt =====
-- Configuration with a text in JSON as the text behind a quotation mark.
use cc_r_device_agent.Prelude.{ℕ, String, ◌+s◌, ◌≡◌, refl, Option, none, some, List, [], ◌∷◌, arith}
use cc_r_device_agent.Prelude.Dict
use cc_r_device_agent.Config.Table.{
  ConfigVersionRecord, Table, insert_config_version, load_latest_config,
}
use cc_r_device_agent.Config.Manager.{
  ConfigManager, device, app, set, delete, get, new_with_store, decode_config_value, inner_set,
  persist, scope_name,
}
use cc_r_device_agent.Config.Versions.{Op, set_to, deleted, run}
use cc_r_device_agent.Config.Reads.{IsRead, set_shadowed}
use cc_r_device_agent.Config.History.{run-reads}

abbrev quote : String → String
quote v = "'" +s v

abbrev unquote : String → Option String
unquote String.[] = none
unquote (String.◌∷◌ c s) = some s

on-IsRead : IsRead quote unquote "on"
on-IsRead = record { back = refl; not_null = refl }

abbrev writes : List Op
writes =
    set_to device "log" "off"
    ∷ deleted (app "weather") "log"
    ∷ set_to (app "weather") "log" "off"
    ∷ deleted device "log"
    ∷ []

abbrev before : Table
before =
    record { scope = "device"; key = "log"; version = 7; value_json = "'off"; signature = none }
    ∷ []

-- The value is lost: it reads as before.
old_value_read :
    get quote unquote device "log" (set quote unquote device "log" "on" (new_with_store before)).0
    ≡ some "off"
unfolding get set inner_set persist new_with_store insert_config_version load_latest_config
    decode_config_value scope_name Dict.get Dict.insert
old_value_read = refl

run-reads_example :
    let m = (run quote unquote writes (new_with_store [])).0 in
    (get quote unquote device "log" (set quote unquote device "log" "on" m).0 ≡ some "on")
    × (get quote unquote device "log" (delete quote unquote device "log" m).0 ≡ none)
run-reads_example = run-reads quote unquote writes device "log" "on" (omega arith) on-IsRead

-- Three other keys are set after the restart.
abbrev restarted : ConfigManager
restarted =
    let other = λ (key : String) (m : ConfigManager). (set quote unquote device key "x" m).0 in
    other "c" (other "b" (other "a" (new_with_store before)))

abbrev row : String → ℕ → ConfigVersionRecord
row key version = record {
  scope = "device";
  key = key;
  version = version;
  value_json = "'x";
  signature = none;
}

abbrev rows : Table
rows = row "c" 3 ∷ row "b" 2 ∷ row "a" 1 ∷ before

restarted-store : restarted.store ≡ some rows
unfolding set inner_set persist new_with_store insert_config_version scope_name
restarted-store = refl

set_shadowed_example :
    let o = set quote unquote device "log" "on" restarted in
    (o.1.version ≡ 4)
    × (get quote unquote device "log" o.0 ≡ decode_config_value quote unquote "'off")
unfolding set inner_set new_with_store
set_shadowed_example =
    set_shadowed quote unquote restarted rows
      (record { scope = "device"; key = "log"; version = 7; value_json = "'off"; signature = none })
      device "log" "on" restarted-store (unfold load_latest_config scope_name in refl) (omega arith)
