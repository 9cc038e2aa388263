-- ===== src/Groups.antt =====
-- src/groups.rs and src/groups_store.rs: groups of devices, and the store of them. `Cache` is the
-- cache, `Store` the store in front of its database.
pub mod Cache
pub mod Store
pub mod Synced
use cc_r_device_agent.Prelude.{
  ℕ, String, Bool, not, Option, List, [], ◌∷◌, ◌++◌, any, length, str_eq, if◌then◌else◌,
}
use cc_r_device_agent.Prelude.Sort.{keep}

-- A UUID stands by its text, a time by a number.
pub record DeviceGroup : Type 0 where
  pub id : String
  pub name : String
  pub description : Option String
  pub device_ids : List String
  pub created_at : ℕ
  pub updated_at : ℕ
  pub created_by : Option String

unfoldable pub contains_device : String → DeviceGroup → Bool
contains_device device g = any (λ id. str_eq id device) g.device_ids

unfoldable pub add_device : ℕ → String → DeviceGroup → DeviceGroup
unfolding contains_device
add_device now device g =
    if contains_device device g
    then g
    else record g { device_ids = g.device_ids ++ device ∷ []; updated_at = now }

-- The loop of `add_devices`.
unfoldable pub push_new : List String → List String → List String
push_new [] ids = ids
push_new (device ∷ devices) ids =
    push_new devices (if any (λ id. str_eq id device) ids then ids else ids ++ device ∷ [])

unfoldable pub add_devices : ℕ → List String → DeviceGroup → DeviceGroup
unfolding push_new
add_devices now devices g = record g {
  device_ids = push_new devices g.device_ids;
  updated_at = now;
}

unfoldable pub remove_device : ℕ → String → DeviceGroup → DeviceGroup
remove_device now device g = record g {
  device_ids = keep (λ id. not (str_eq id device)) g.device_ids;
  updated_at = now;
}

unfoldable pub device_count : DeviceGroup → ℕ
device_count g = length g.device_ids

pub data DeviceGroupSortField : Type 0 where
  created_at updated_at name group_device_count : DeviceGroupSortField

pub record DeviceGroupFilter : Type 0 where
  pub name : Option String
  pub created_by : Option String
  pub sort_by : DeviceGroupSortField
  pub sort_desc : Bool
  pub offset : ℕ
  pub limit : ℕ
