-- ===== src/Tags/Store.antt =====
-- src/tags_store.rs, `TagStore`: the caches in front of the tables tags and device_tags, on a database
-- whose statements fail only by their constraints. A row holds the value that its text stands for.
use cc_r_device_agent.Prelude.{
  String, Bool, not, ◌&&◌, ◌||◌, Option, none, List, [], ◌∷◌, ◌++◌, any, str_eq, if◌then◌else◌,
  Result, ok, err,
}
use cc_r_device_agent.Prelude.Sort.{keep}
use cc_r_device_agent.Tags.{Tag, DeviceTag, TagStats}
use cc_r_device_agent.Tags.Cache
use cc_r_device_agent.Tags.Cache.{TagCache}
use cc_r_device_agent.Tags.Assignments
use cc_r_device_agent.Tags.Assignments.{DeviceTagCache, is_pair, is_device, is_tag}

-- The tables, in the order of insertion. `tags` has unique ids and names, `device_tags` unique pairs of
-- a device and a tag.
pub record Tables : Type 0 where
  pub tags : List Tag
  pub device_tags : List DeviceTag

pub record TagStore : Type 0 where
  pub cache : TagCache
  pub device_tag_cache : DeviceTagCache
  pub db : Tables

-- An empty database.
abbrev pub empty_store : TagStore
empty_store = record {
  cache = record { tags = []; stats = record { total_tags = 0; total_assignments = 0 } };
  device_tag_cache = record { device_tags = []; tag_devices = [] };
  db = record { tags = []; device_tags = [] };
}

-- `INSERT INTO tags` breaks a constraint.
abbrev pub has_conflict : Tag → List Tag → Bool
has_conflict tag rows = any (λ r. str_eq r.id tag.id || str_eq r.name tag.name) rows

unfoldable pub create_tag : Tag → TagStore → TagStore × Result String (Unit {0})
create_tag tag s = if has_conflict tag s.db.tags then (s, err "UNIQUE constraint failed") else (
  record s { cache = Cache.insert tag s.cache; db = record s.db { tags = s.db.tags ++ tag ∷ [] } },
  ok tt,
)

-- The row that `UPDATE tags` writes: the time of creation is kept.
abbrev pub updated_row : Tag → Tag → Tag
updated_row tag r = record tag { id = r.id; created_at = r.created_at }

unfoldable pub update_rows : Tag → List Tag → List Tag
update_rows tag [] = []
update_rows tag (r ∷ rs) =
    let rest = update_rows tag rs in
    if str_eq r.id tag.id then updated_row tag r ∷ rest else r ∷ rest

-- Another row has the name.
abbrev pub is_name_taken : Tag → List Tag → Bool
is_name_taken tag rows = any (λ r. not (str_eq r.id tag.id) && str_eq r.name tag.name) rows

abbrev pub has_tag : String → List Tag → Bool
has_tag id rows = any (λ r. str_eq r.id id) rows

unfoldable pub update_tag : Tag → TagStore → TagStore × Result String (Option Tag)
unfolding update_rows
update_tag tag s =
    if has_tag tag.id s.db.tags
    then (if is_name_taken tag s.db.tags
        then (s, err "UNIQUE constraint failed: tags.name")
        else let cache = (Cache.update tag s.cache).0 in
          (
            record s { cache = cache; db = record s.db { tags = update_rows tag s.db.tags } },
            ok (Cache.get tag.id cache),
          ))
    else (s, ok none)

unfoldable pub delete_tag : String → TagStore → TagStore × Result String (Option Tag)
delete_tag id s =
    if has_tag id s.db.tags
    then (let removed = Cache.remove id s.cache in
        (
          record s {
            cache = removed.0;
            db = record {
              tags = keep (λ r. not (str_eq r.id id)) s.db.tags;
              device_tags = keep (λ x. not (is_tag id x)) s.db.device_tags;
            };
          },
          ok removed.1,
        ))
    else (s, ok none)

-- `INSERT OR REPLACE INTO device_tags`: the row of the same pair goes, the new one comes last.
unfoldable pub insert_or_replace : DeviceTag → List DeviceTag → List DeviceTag
insert_or_replace x rows = keep (λ y. not (is_pair x.device_id x.tag_id y)) rows ++ x ∷ []

unfoldable pub assign_tag : DeviceTag → TagStore → TagStore
unfolding insert_or_replace
assign_tag x s = record s {
  device_tag_cache = Assignments.insert x s.device_tag_cache;
  db = record s.db { device_tags = insert_or_replace x s.db.device_tags };
}

unfoldable pub remove_tag_from_device : String → String → TagStore → TagStore × Option DeviceTag
remove_tag_from_device device tag s =
    if any (is_pair device tag) s.db.device_tags
    then (let removed = Assignments.remove device tag s.device_tag_cache in
        (
          record s {
            device_tag_cache = removed.0;
            db = record s.db {
              device_tags = keep (λ x. not (is_pair device tag x)) s.db.device_tags;
            };
          },
          removed.1,
        ))
    else (s, none)

unfoldable pub remove_all_tags_from_device : String → TagStore → TagStore × List DeviceTag
remove_all_tags_from_device device s =
    let removed = Assignments.remove_by_device device s.device_tag_cache in
    (
      record s {
        device_tag_cache = removed.0;
        db = record s.db { device_tags = keep (λ x. not (is_device device x)) s.db.device_tags };
      },
      removed.1,
    )

unfoldable pub get_tags_for_device : String → TagStore → List DeviceTag
get_tags_for_device device s = Assignments.get_by_device device s.device_tag_cache

unfoldable pub get_devices_for_tag : String → TagStore → List DeviceTag
get_devices_for_tag tag s = Assignments.get_by_tag tag s.device_tag_cache

unfoldable pub stats : TagStore → TagStats
stats s = record s.cache.stats {
  total_assignments = Assignments.total_assignments s.device_tag_cache;
}
