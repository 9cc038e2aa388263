-- ===== src/Tests/Groups.antt =====
-- src/groups_store.rs at concrete inputs.
use cc_r_device_agent.Prelude.{String, ◌≡◌, none, List, [], ◌∷◌}
use cc_r_device_agent.Groups.{DeviceGroup}
use cc_r_device_agent.Groups.Store
use cc_r_device_agent.Groups.Store.{empty_store}
use cc_r_device_agent.Groups.Synced.{
  GroupOp, create, update, delete, timeless, row_of, run, run-get,
}
use cc_r_device_agent.Tests.Alerts.{whole}

abbrev group : String → String → List String → DeviceGroup
group id name devices = record {
  id = id;
  name = name;
  description = none;
  device_ids = devices;
  created_at = 3;
  updated_at = 4;
  created_by = none;
}

abbrev calls : List GroupOp
calls =
    create (group "g1" "lab" ("d1" ∷ []))
    ∷ create (group "g2" "roof" [])
    ∷ update (record (group "g1" "attic" ("d1" ∷ "d2" ∷ [])) { created_at = 9 })
    ∷ delete "g2"
    ∷ []

run-get_example :
    timeless (Store.get whole "g1" (run whole calls (empty_store whole)))
    ≡ timeless (row_of "g1" (run whole calls (empty_store whole)).rows)
run-get_example = run-get whole calls "g1"
