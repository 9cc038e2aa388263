-- ===== src/Groups/Cache.antt =====
-- src/groups_store.rs, `DeviceGroupCache`. The numbers f64, the substring test and the lower case of
-- texts are parameters.
use cc_r_device_agent.Prelude.{
  ℕ, ◌+◌, String, Bool, ◌&&◌, ◌==◌, Option, none, some, List, [], ◌∷◌, leb, length, str_eq,
  string_eq, if◌then◌else◌,
}
use cc_r_device_agent.Prelude.Dict
use cc_r_device_agent.Prelude.Dict.{Dict, values}
use cc_r_device_agent.Prelude.Sort.{sort_by, keep}
use cc_r_device_agent.Alerts.Rules.{Floats}
use cc_r_device_agent.Tags.{page}
use cc_r_device_agent.Tags.Cache.{text_leb, is_creator, is_named, find}
use cc_r_device_agent.Groups.{DeviceGroup, DeviceGroupFilter, DeviceGroupSortField}

-- `a` is not after `b`; `cmp.reverse()` is the comparison of `b` with `a`.
unfoldable pub ascending : DeviceGroupSortField → DeviceGroup → DeviceGroup → Bool
ascending DeviceGroupSortField.created_at a b = leb a.created_at b.created_at
ascending DeviceGroupSortField.updated_at a b = leb a.updated_at b.updated_at
ascending DeviceGroupSortField.name a b = text_leb a.name b.name
ascending DeviceGroupSortField.group_device_count a b =
    leb (length a.device_ids) (length b.device_ids)

unfoldable pub not_after : DeviceGroupFilter → DeviceGroup → DeviceGroup → Bool
unfolding ascending
not_after f a b = if f.sort_desc then ascending f.sort_by b a else ascending f.sort_by a b

unfoldable pub count_devices : List DeviceGroup → ℕ
count_devices [] = 0
count_devices (g ∷ gs) = length g.device_ids + count_devices gs

module _ (fl : Floats) where
  pub record DeviceGroupStats : Type 0 where
    pub total_groups : ℕ
    pub total_devices : ℕ
    pub avg_devices_per_group : fl.F

  pub record DeviceGroupCache : Type 0 where
    pub groups : Dict String DeviceGroup
    pub stats : DeviceGroupStats

  abbrev pub new_cache : DeviceGroupCache
  new_cache = record {
    groups = [];
    stats = record { total_groups = 0; total_devices = 0; avg_devices_per_group = fl.zero };
  }

  unfoldable pub get : String → DeviceGroupCache → Option DeviceGroup
  get id c = Dict.get id c.groups

  unfoldable pub get_by_name : String → DeviceGroupCache → Option DeviceGroup
  unfolding find
  get_by_name name c = find (λ g. str_eq g.name name) (values c.groups)

  unfoldable pub get_all : DeviceGroupCache → List DeviceGroup
  get_all c = values c.groups

  unfoldable pub update_stats : DeviceGroupCache → DeviceGroupCache
  unfolding count_devices
  update_stats c =
      let total_devices = count_devices (values c.groups) in
      record c {
        stats = record {
          total_groups = length c.groups;
          total_devices = total_devices;
          avg_devices_per_group =
              if length c.groups == 0
              then fl.zero
              else fl.div (fl.of_ℕ total_devices) (fl.of_ℕ (length c.groups));
        };
      }

  unfoldable pub insert : DeviceGroup → DeviceGroupCache → DeviceGroupCache
  unfolding update_stats
  insert g c = update_stats (record c { groups = Dict.insert g.id g c.groups })

  unfoldable pub update : DeviceGroup → DeviceGroupCache → DeviceGroupCache × Option DeviceGroup
  unfolding update_stats
  update g c = elim (Dict.get g.id c.groups) [
    | none ↦ (c, none)
    | some old ↦ (update_stats (record c { groups = Dict.insert g.id g c.groups }), some old)
  ]

  unfoldable pub remove : String → DeviceGroupCache → DeviceGroupCache × Option DeviceGroup
  unfolding update_stats
  remove id c = elim (Dict.get id c.groups) [
    | none ↦ (c, none)
    | some removed ↦ (update_stats (record c { groups = Dict.remove id c.groups }), some removed)
  ]

  module _ (to_lowercase : String → String) (contains : String → String → Bool) where
    unfoldable pub is_match : DeviceGroupFilter → DeviceGroup → Bool
    is_match f g =
        is_named to_lowercase contains f.name g.name && is_creator f.created_by g.created_by

    unfoldable pub filter : DeviceGroupFilter → DeviceGroupCache → List DeviceGroup
    unfolding get_all is_match not_after page
    filter f c = page f.offset f.limit (sort_by (not_after f) (keep (is_match f) (get_all c)))
