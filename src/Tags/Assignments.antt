-- ===== src/Tags/Assignments.antt =====
-- src/tags_store.rs, `DeviceTagCache`: the assignments twice, by device and by tag.
use cc_r_device_agent.Prelude.{
  ℕ, ◌+◌, String, Bool, true, not, ◌&&◌, Option, none, some, List, [], ◌∷◌, ◌++◌, leb, length,
  str_eq, string_eq, or_else, if◌then◌else◌,
}
use cc_r_device_agent.Prelude.Dict
use cc_r_device_agent.Prelude.Dict.{Dict, values}
use cc_r_device_agent.Prelude.Sort.{sort_by, keep}
use cc_r_device_agent.Tags.{DeviceTag, DeviceTagFilter, DeviceTagSortField, page}
use cc_r_device_agent.Tags.Cache.{text_leb}

-- The keys are a device's id and a tag's id.
pub record DeviceTagCache : Type 0 where
  pub device_tags : Dict String (List DeviceTag)
  pub tag_devices : Dict String (List DeviceTag)

-- `get(key).cloned().unwrap_or_default()`.
unfoldable pub at_key : String → Dict String (List DeviceTag) → List DeviceTag
at_key key m = or_else (Dict.get key m) []

unfoldable pub get_by_device : String → DeviceTagCache → List DeviceTag
unfolding at_key
get_by_device device c = at_key device c.device_tags

unfoldable pub get_by_tag : String → DeviceTagCache → List DeviceTag
unfolding at_key
get_by_tag tag c = at_key tag c.tag_devices

unfoldable pub flatten : List (List DeviceTag) → List DeviceTag
flatten [] = []
flatten (xs ∷ xss) = xs ++ flatten xss

unfoldable pub get_all : DeviceTagCache → List DeviceTag
unfolding flatten
get_all c = flatten (values c.device_tags)

-- `entry(key).or_default().push(x)`.
unfoldable pub push_at :
    String → DeviceTag → Dict String (List DeviceTag) → Dict String (List DeviceTag)
unfolding at_key
push_at key x m = Dict.insert key (at_key key m ++ x ∷ []) m

unfoldable pub insert : DeviceTag → DeviceTagCache → DeviceTagCache
unfolding push_at
insert x c = record {
  device_tags = push_at x.device_id x c.device_tags;
  tag_devices = push_at x.tag_id x c.tag_devices;
}

-- `position(p).map(|idx| tags.remove(idx))`: what is removed, and what is left.
unfoldable pub take_first :
    (DeviceTag → Bool) → List DeviceTag → Option (DeviceTag × List DeviceTag)
take_first p [] = none
take_first p (x ∷ xs) =
    let later = take_first p xs in
    if p x then some (x, xs) else elim later [ none ↦ none | some r ↦ some (r.0, x ∷ r.1) ]

-- `retain(p)` of the list under a key, if there is one.
unfoldable pub retain_at :
    String → (DeviceTag → Bool) → Dict String (List DeviceTag) → Dict String (List DeviceTag)
retain_at key p m = elim (Dict.get key m) [ none ↦ m | some xs ↦ Dict.insert key (keep p xs) m ]

-- The assignment of a tag to a device.
abbrev pub is_pair : String → String → DeviceTag → Bool
is_pair device tag x = str_eq x.device_id device && str_eq x.tag_id tag

abbrev pub is_device : String → DeviceTag → Bool
is_device device x = str_eq x.device_id device

abbrev pub is_tag : String → DeviceTag → Bool
is_tag tag x = str_eq x.tag_id tag

abbrev pub removed_from :
    String
    → String
    → DeviceTagCache
    → Option (DeviceTag × List DeviceTag)
    → DeviceTagCache × Option DeviceTag
removed_from device tag c none = (c, none)
removed_from device tag c (some r) = (
  record {
    device_tags = Dict.insert device r.1 c.device_tags;
    tag_devices = retain_at r.0.tag_id (λ x. not (is_pair device tag x)) c.tag_devices;
  },
  some r.0,
)

unfoldable pub remove : String → String → DeviceTagCache → DeviceTagCache × Option DeviceTag
unfolding take_first retain_at
remove device tag c =
    removed_from device tag c
      (elim (Dict.get device c.device_tags) [ none ↦ none | some xs ↦ take_first (is_tag tag) xs ])

unfoldable pub retain_all :
    String → List DeviceTag → Dict String (List DeviceTag) → Dict String (List DeviceTag)
unfolding retain_at
retain_all device [] m = m
retain_all device (x ∷ xs) m =
    retain_all device xs (retain_at x.tag_id (λ y. not (is_device device y)) m)

unfoldable pub remove_by_device : String → DeviceTagCache → DeviceTagCache × List DeviceTag
unfolding at_key retain_all
remove_by_device device c =
    let removed = at_key device c.device_tags in
    (
      record {
        device_tags = Dict.remove device c.device_tags;
        tag_devices = retain_all device removed c.tag_devices;
      },
      removed,
    )

abbrev pub is_wanted : Option String → String → Bool
is_wanted none id = true
is_wanted (some wanted) id = str_eq id wanted

unfoldable pub is_match : DeviceTagFilter → DeviceTag → Bool
is_match f x = is_wanted f.device_id x.device_id && is_wanted f.tag_id x.tag_id

unfoldable pub ascending : DeviceTagSortField → DeviceTag → DeviceTag → Bool
ascending DeviceTagSortField.assigned_at a b = leb a.assigned_at b.assigned_at
ascending DeviceTagSortField.device_id a b = text_leb a.device_id b.device_id
ascending DeviceTagSortField.tag_id a b = text_leb a.tag_id b.tag_id

unfoldable pub not_after : DeviceTagFilter → DeviceTag → DeviceTag → Bool
unfolding ascending
not_after f a b = if f.sort_desc then ascending f.sort_by b a else ascending f.sort_by a b

unfoldable pub filter : DeviceTagFilter → DeviceTagCache → List DeviceTag
unfolding get_all is_match not_after page
filter f c = page f.offset f.limit (sort_by (not_after f) (keep (is_match f) (get_all c)))

unfoldable pub sum_lengths : List (List DeviceTag) → ℕ
sum_lengths [] = 0
sum_lengths (xs ∷ xss) = length xs + sum_lengths xss

unfoldable pub total_assignments : DeviceTagCache → ℕ
unfolding sum_lengths
total_assignments c = sum_lengths (values c.device_tags)
