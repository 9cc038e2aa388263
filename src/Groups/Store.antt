-- ===== src/Groups/Store.antt =====
-- src/groups_store.rs, `DeviceGroupStore`: the cache in front of the table device_groups, on a database
-- whose statements fail only by their constraints. A row holds the value that its text stands for.
use cc_r_device_agent.Prelude.{
  String, Bool, not, ◌&&◌, ◌||◌, Option, none, List, [], ◌∷◌, ◌++◌, any, str_eq, if◌then◌else◌,
  Result, ok, err,
}
use cc_r_device_agent.Prelude.Sort.{keep}
use cc_r_device_agent.Alerts.Rules.{Floats}
use cc_r_device_agent.Groups.{DeviceGroup}
use cc_r_device_agent.Groups.Cache
use cc_r_device_agent.Groups.Cache.{DeviceGroupCache, new_cache}

-- An `INSERT` of the group breaks a constraint.
abbrev pub has_conflict : DeviceGroup → List DeviceGroup → Bool
has_conflict g rows = any (λ r. str_eq r.id g.id || str_eq r.name g.name) rows

-- Another row has the name.
abbrev pub is_name_taken : DeviceGroup → List DeviceGroup → Bool
is_name_taken g rows = any (λ r. not (str_eq r.id g.id) && str_eq r.name g.name) rows

abbrev pub has_group : String → List DeviceGroup → Bool
has_group id rows = any (λ r. str_eq r.id id) rows

-- The row that `UPDATE` writes: the time of creation is kept.
abbrev pub updated_row : DeviceGroup → DeviceGroup → DeviceGroup
updated_row g r = record g { id = r.id; created_at = r.created_at }

unfoldable pub update_rows : DeviceGroup → List DeviceGroup → List DeviceGroup
update_rows g [] = []
update_rows g (r ∷ rs) =
    let rest = update_rows g rs in if str_eq r.id g.id then updated_row g r ∷ rest else r ∷ rest

module _ (fl : Floats) where
  -- The rows are in the order of insertion; their ids and names are unique.
  pub record DeviceGroupStore : Type 0 where
    pub cache : DeviceGroupCache fl
    pub rows : List DeviceGroup

  -- An empty database.
  abbrev pub empty_store : DeviceGroupStore
  empty_store = record { cache = new_cache fl; rows = [] }

  unfoldable pub create :
      DeviceGroup → DeviceGroupStore → DeviceGroupStore × Result String (Unit {0})
  create g s =
      if has_conflict g s.rows
      then (s, err "UNIQUE constraint failed")
      else (record { cache = Cache.insert fl g s.cache; rows = s.rows ++ g ∷ [] }, ok tt)

  unfoldable pub update :
      DeviceGroup → DeviceGroupStore → DeviceGroupStore × Result String (Option DeviceGroup)
  unfolding update_rows
  update g s =
      if has_group g.id s.rows
      then (if is_name_taken g s.rows
          then (s, err "UNIQUE constraint failed: device_groups.name")
          else let cache = (Cache.update fl g s.cache).0 in
            (record { cache = cache; rows = update_rows g s.rows }, ok (Cache.get fl g.id cache)))
      else (s, ok none)

  unfoldable pub delete :
      String → DeviceGroupStore → DeviceGroupStore × Result String (Option DeviceGroup)
  delete id s =
      if has_group id s.rows
      then (let removed = Cache.remove fl id s.cache in
          (
            record { cache = removed.0; rows = keep (λ r. not (str_eq r.id id)) s.rows },
            ok removed.1,
          ))
      else (s, ok none)

  unfoldable pub get : String → DeviceGroupStore → Option DeviceGroup
  get id s = Cache.get fl id s.cache
