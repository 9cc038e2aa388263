-- ===== src/Tags/History.antt =====
-- Histories of the tag store.
use cc_r_device_agent.Prelude.{◌≡◌, refl, inl, inr, String, false, List, [], ◌∷◌, any, Bool-cases}
use cc_r_device_agent.Prelude.Dict
use cc_r_device_agent.Prelude.Sort.{keep}
use cc_r_device_agent.Tags.{Tag, DeviceTag}
use cc_r_device_agent.Tags.Assignments.{get_by_device, get_by_tag, is_pair, is_device, is_tag}
use cc_r_device_agent.Tags.Store.{
  TagStore, empty_store, create_tag, update_tag, delete_tag, assign_tag, has_tag, has_conflict,
  is_name_taken, remove_tag_from_device, remove_all_tags_from_device, get_tags_for_device,
  get_devices_for_tag,
}
use cc_r_device_agent.Tags.Rows.{keep-not, IsUnique}
use cc_r_device_agent.Tags.Synced.{
  IsSynced, insert-IsSynced, remove-IsSynced, remove_by_device-IsSynced,
}

-- A call that writes.
pub data TagOp : Type 0 where
  create update : Tag → TagOp
  delete : String → TagOp
  assign : DeviceTag → TagOp
  remove : String → String → TagOp
  remove_all : String → TagOp

unfoldable pub step : TagOp → TagStore → TagStore
step (create tag) s = (create_tag tag s).0
step (update tag) s = (update_tag tag s).0
step (delete id) s = (delete_tag id s).0
step (assign x) s = assign_tag x s
step (remove device tag) s = (remove_tag_from_device device tag s).0
step (remove_all device) s = (remove_all_tags_from_device device s).0

unfoldable pub run : List TagOp → TagStore → TagStore
run [] s = s
run (op ∷ ops) s = run ops (step op s)

-- No assignment is made again, and no tag is deleted that is assigned.
unfoldable pub IsHarmless : TagOp → TagStore → Type 0
IsHarmless (create tag) s = Unit
IsHarmless (update tag) s = Unit
IsHarmless (delete id) s = any (is_tag id) s.db.device_tags ≡ false
IsHarmless (assign x) s = any (is_pair x.device_id x.tag_id) s.db.device_tags ≡ false
IsHarmless (remove device tag) s = Unit
IsHarmless (remove_all device) s = Unit

unfoldable pub IsHarmlessRun : List TagOp → TagStore → Type 0
IsHarmlessRun [] s = Unit
IsHarmlessRun (op ∷ ops) s = IsHarmless op s × IsHarmlessRun ops (step op s)

abbrev InStep : TagStore → Type 0
InStep s = IsSynced s.device_tag_cache s.db.device_tags

step-IsSynced : (op : TagOp) (s : TagStore) → IsHarmless op s → InStep s → InStep (step op s)
unfolding step IsHarmless create_tag update_tag delete_tag assign_tag remove_tag_from_device
    remove_all_tags_from_device
step-IsSynced (create tag) s h i = elim (Bool-cases (has_conflict tag s.db.tags)) [
  | inl e ↦ rw (e, step) i
  | inr e ↦ rw (e, step) i
]
step-IsSynced (update tag) s h i = elim (Bool-cases (has_tag tag.id s.db.tags)) [
  | inl e ↦ elim (Bool-cases (is_name_taken tag s.db.tags)) [
    | inl n ↦ rw (e, step) (rw n i)
    | inr n ↦ rw (e, step) (rw n i)
  ]
  | inr e ↦ rw (e, step) i
]
step-IsSynced (delete id) s h i = elim (Bool-cases (has_tag id s.db.tags)) [
  | inl e ↦ rw (e, step) (rw (keep-not (is_tag id) s.db.device_tags h) i)
  | inr e ↦ rw (e, step) i
]
step-IsSynced (assign x) s h i = insert-IsSynced x s.device_tag_cache s.db.device_tags h i
step-IsSynced (remove device tag) s h i =
    elim (Bool-cases (any (is_pair device tag) s.db.device_tags)) [
      | inl e ↦ rw (e, step) (remove-IsSynced device tag s.device_tag_cache s.db.device_tags e i)
      | inr e ↦ rw (e, step) i
    ]
step-IsSynced (remove_all device) s h i =
    remove_by_device-IsSynced device s.device_tag_cache s.db.device_tags i

run-IsSynced :
    (ops : List TagOp) (s : TagStore) → IsHarmlessRun ops s → InStep s → InStep (run ops s)
unfolding run IsHarmlessRun
run-IsSynced [] s h i = i
run-IsSynced (op ∷ ops) s h i = run-IsSynced ops (step op s) h.1 (step-IsSynced op s h.0 i)

pub empty-IsSynced : InStep empty_store
unfolding IsUnique get_by_device get_by_tag keep Dict.get
empty-IsSynced = record { unique = tt; by_device = λ device. refl; by_tag = λ tag. refl }

-- From an empty database, after any calls of which none assigns a tag to a device that has it and none
-- deletes a tag that is assigned: the tags given for a device are the rows of the device, and the
-- devices given for a tag are the rows of the tag, in the order of the table.
pub run_rows :
    (ops : List TagOp) (device tag : String)
    → IsHarmlessRun ops empty_store
    → (get_tags_for_device device (run ops empty_store)
        ≡ keep (is_device device) (run ops empty_store).db.device_tags)
      × (get_devices_for_tag tag (run ops empty_store)
          ≡ keep (is_tag tag) (run ops empty_store).db.device_tags)
unfolding get_tags_for_device get_devices_for_tag
run_rows ops device tag h =
    let synced = run-IsSynced ops empty_store h empty-IsSynced in
    (synced.by_device device, synced.by_tag tag)
