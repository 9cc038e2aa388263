-- ===== src/Tags/Cache.antt =====
-- src/tags_store.rs, `TagCache`. The substring test and the lower case of Rust's texts are parameters
-- of the filter.
use Prim.Native.Nat.{Ordering}
use Prim.Native.String.{compare}
use cc_r_device_agent.Prelude.{
  String, Bool, true, false, ◌&&◌, Option, none, some, List, [], ◌∷◌, leb, length, str_eq,
  string_eq, if◌then◌else◌,
}
use cc_r_device_agent.Prelude.Dict
use cc_r_device_agent.Prelude.Dict.{Dict, values}
use cc_r_device_agent.Prelude.Sort.{sort_by, keep}
use cc_r_device_agent.Tags.{Tag, TagFilter, TagSortField, TagStats, page}

pub record TagCache : Type 0 where
  pub tags : Dict String Tag
  pub stats : TagStats

unfoldable pub get : String → TagCache → Option Tag
get id c = Dict.get id c.tags

-- `iter().find(p)`.
unfoldable pub find {ℓ} : {A : Type ℓ} → (A → Bool) → List A → Option A
find p [] = none
find p (x ∷ xs) = let later = find p xs in if p x then some x else later

unfoldable pub get_by_name : String → TagCache → Option Tag
unfolding find
get_by_name name c = find (λ t. str_eq t.name name) (values c.tags)

unfoldable pub get_all : TagCache → List Tag
get_all c = values c.tags

unfoldable pub update_stats : TagCache → TagCache
update_stats c = record c { stats = record c.stats { total_tags = length c.tags } }

unfoldable pub insert : Tag → TagCache → TagCache
unfolding update_stats
insert tag c = update_stats (record c { tags = Dict.insert tag.id tag c.tags })

unfoldable pub update : Tag → TagCache → TagCache × Option Tag
unfolding update_stats
update tag c = elim (Dict.get tag.id c.tags) [
  | none ↦ (c, none)
  | some old ↦ (update_stats (record c { tags = Dict.insert tag.id tag c.tags }), some old)
]

unfoldable pub remove : String → TagCache → TagCache × Option Tag
unfolding update_stats
remove id c = elim (Dict.get id c.tags) [
  | none ↦ (c, none)
  | some removed ↦ (update_stats (record c { tags = Dict.remove id c.tags }), some removed)
]

-- `cmp` of texts is not greater.
abbrev pub text_leb : String → String → Bool
text_leb a b = elim (compare a b) [ Ordering.gt ↦ false | _ ↦ true ]

abbrev pub is_creator : Option String → Option String → Bool
is_creator none creator = true
is_creator (some wanted) none = false
is_creator (some wanted) (some creator) = str_eq creator wanted

-- `a` is not after `b`; `cmp.reverse()` is the comparison of `b` with `a`.
unfoldable pub ascending : TagSortField → Tag → Tag → Bool
ascending TagSortField.created_at a b = leb a.created_at b.created_at
ascending TagSortField.updated_at a b = leb a.updated_at b.updated_at
ascending TagSortField.name a b = text_leb a.name b.name

unfoldable pub not_after : TagFilter → Tag → Tag → Bool
unfolding ascending
not_after f a b = if f.sort_desc then ascending f.sort_by b a else ascending f.sort_by a b

module _ (to_lowercase : String → String) (contains : String → String → Bool) where
  abbrev pub is_named : Option String → String → Bool
  is_named none name = true
  is_named (some part) name = contains (to_lowercase name) (to_lowercase part)

  unfoldable pub is_match : TagFilter → Tag → Bool
  is_match f tag = is_named f.name tag.name && is_creator f.created_by tag.created_by

  unfoldable pub filter : TagFilter → TagCache → List Tag
  unfolding get_all is_match not_after page
  filter f c = page f.offset f.limit (sort_by (not_after f) (keep (is_match f) (get_all c)))
