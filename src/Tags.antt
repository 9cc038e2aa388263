-- ===== src/Tags.antt =====
-- src/tags.rs and src/tags_store.rs: tags, their assignments to devices, and the store of both.
-- `Cache` and `Assignments` are the two caches, `Store` the store in front of its database.
pub mod Cache
pub mod Assignments
pub mod Store
pub mod Rows
pub mod Synced
pub mod History
pub mod Leaks
use cc_r_device_agent.Prelude.{ℕ, String, Bool, Option, none, ◌==◌, if◌then◌else◌}
use cc_r_device_agent.Prelude.Sort.{take, drop}
use cc_r_device_agent.Prelude.{List, leb}

-- A UUID stands by its text, a time by a number.
pub record Tag : Type 0 where
  pub id : String
  pub name : String
  pub description : Option String
  pub color : Option String
  pub created_at : ℕ
  pub updated_at : ℕ
  pub created_by : Option String

pub record DeviceTag : Type 0 where
  pub device_id : String
  pub tag_id : String
  pub assigned_at : ℕ
  pub assigned_by : Option String

pub data TagSortField : Type 0 where
  created_at updated_at name : TagSortField

pub record TagFilter : Type 0 where
  pub name : Option String
  pub created_by : Option String
  pub sort_by : TagSortField
  pub sort_desc : Bool
  pub offset : ℕ
  pub limit : ℕ

pub data DeviceTagSortField : Type 0 where
  assigned_at device_id tag_id : DeviceTagSortField

pub record DeviceTagFilter : Type 0 where
  pub device_id : Option String
  pub tag_id : Option String
  pub sort_by : DeviceTagSortField
  pub sort_desc : Bool
  pub offset : ℕ
  pub limit : ℕ

-- `avg_tags_per_device` is never set.
pub record TagStats : Type 0 where
  pub total_tags : ℕ
  pub total_assignments : ℕ

-- `skip(offset).take(limit)`, where the limit 0 is `usize::MAX`, which no list exceeds.
unfoldable pub page {ℓ} : {A : Type ℓ} → ℕ → ℕ → List A → List A
page offset limit xs = if limit == 0 then drop offset xs else take limit (drop offset xs)
