-- ===== src/Tests/Tags.antt =====
-- src/tags_store.rs at concrete inputs.
use cc_r_device_agent.Prelude.{String, ◌≡◌, refl, false, none, some, List, [], ◌∷◌, ◌++◌, any}
use cc_r_device_agent.Prelude.Sort.{keep}
use cc_r_device_agent.Tags.{Tag, DeviceTag}
use cc_r_device_agent.Tags.Assignments.{is_pair, is_device, is_tag}
use cc_r_device_agent.Tags.Store.{
  empty_store, create_tag, assign_tag, insert_or_replace, remove_all_tags_from_device,
  remove_tag_from_device, get_tags_for_device, get_devices_for_tag,
}
use cc_r_device_agent.Tags.History.{
  TagOp, create, delete, assign, remove, remove_all, step, run, IsHarmless, IsHarmlessRun, run_rows,
  empty-IsSynced,
}
use cc_r_device_agent.Tags.Leaks.{reassigned, reassign_stale}

abbrev tag : String → String → Tag
tag id name = record {
  id = id;
  name = name;
  description = none;
  color = none;
  created_at = 1;
  updated_at = 1;
  created_by = none;
}

abbrev given : String → String → DeviceTag
given device id = record { device_id = device; tag_id = id; assigned_at = 5; assigned_by = none }

abbrev calls : List TagOp
calls =
    create (tag "t1" "lab")
    ∷ create (tag "t2" "roof")
    ∷ assign (given "d1" "t1")
    ∷ assign (given "d1" "t2")
    ∷ assign (given "d2" "t1")
    ∷ remove "d1" "t1"
    ∷ remove_all "d2"
    ∷ assign (given "d2" "t2")
    ∷ delete "t1"
    ∷ []

calls-IsHarmlessRun : IsHarmlessRun calls empty_store
unfolding IsHarmlessRun IsHarmless step create_tag assign_tag insert_or_replace
    remove_tag_from_device remove_all_tags_from_device keep
calls-IsHarmlessRun = (tt, (tt, (refl, (refl, (refl, (tt, (tt, (refl, (refl, tt)))))))))

run_rows_example :
    (get_tags_for_device "d1" (run calls empty_store)
      ≡ keep (is_device "d1") (run calls empty_store).db.device_tags)
    × (get_devices_for_tag "t2" (run calls empty_store)
        ≡ keep (is_tag "t2") (run calls empty_store).db.device_tags)
run_rows_example = run_rows calls "d1" "t2" calls-IsHarmlessRun

reassign_stale_example :
    let after =
      reassigned
        (given "d1" "t1")
        (record (given "d1" "t1") { assigned_at = 9; assigned_by = some "u" })
        empty_store in
    (any (is_pair "d1" "t1") after.db.device_tags ≡ false)
    × (get_tags_for_device "d1" after
        ≡ get_tags_for_device "d1" empty_store
          ++ record (given "d1" "t1") { assigned_at = 9; assigned_by = some "u" } ∷ [])
    × (remove_tag_from_device "d1" "t1" after ≡ (after, none))
reassign_stale_example =
    reassign_stale (given "d1" "t1") 9 (some "u") empty_store empty-IsSynced refl
