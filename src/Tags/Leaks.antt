-- ===== src/Tags/Leaks.antt =====
-- How the cache of assignments gets out of step with the table.
use cc_r_device_agent.Prelude.{
  ℕ, Option, ◌≡◌, refl, ap, ◌∙◌, String, Bool, true, false, not, some, none, List, [], ◌∷◌, ◌++◌,
  any, string_eq, arith,
}
use cc_r_device_agent.Prelude.Sort.{keep}
use cc_r_device_agent.Tags.{DeviceTag}
use cc_r_device_agent.Prelude.Dict.{same_self}
use cc_r_device_agent.Tags.Assignments
use cc_r_device_agent.Tags.Assignments.{
  push_at, take_first, get_by_device, is_pair, is_device, is_tag,
}
use cc_r_device_agent.Tags.Rows.{keep_neither, at_key-push_at, at_key-insert, take_found}
use cc_r_device_agent.Tags.Store.{
  TagStore, insert_or_replace, delete_tag, assign_tag, has_tag, remove_tag_from_device,
  get_tags_for_device, get_devices_for_tag,
}
use cc_r_device_agent.Tags.Synced.{IsSynced}

-- Whatever assignments a tag has, deleting the tag takes its rows out of device_tags, but
-- the devices of the tag and the tags of every device are still given as before.
pub delete_tag_stale :
    (id : String) (s : TagStore)
    → has_tag id s.db.tags ≡ true
    → (keep (is_tag id) (delete_tag id s).0.db.device_tags ≡ [])
      × (get_devices_for_tag id (delete_tag id s).0 ≡ get_devices_for_tag id s)
      × ((device : String)
          → get_tags_for_device device (delete_tag id s).0 ≡ get_tags_for_device device s)
unfolding delete_tag get_devices_for_tag get_tags_for_device
delete_tag_stale id s h = rw h (keep_neither (is_tag id) s.db.device_tags, refl, λ device. refl)

take_first_past :
    (p : DeviceTag → Bool) (xs : List DeviceTag) (x : DeviceTag) (ys : List DeviceTag)
    → any p xs ≡ false
    → p x ≡ true
    → take_first p ((xs ++ x ∷ []) ++ ys) ≡ some (x, xs ++ ys)
unfolding take_first
take_first_past p [] x ys h i = ground arith
take_first_past p (z ∷ xs) x ys h i = ground (arith, take_first_past p xs x ys)

none_with_tag :
    (device tag : String) (rows : List DeviceTag)
    → any (is_pair device tag) rows ≡ false
    → any (is_tag tag) (keep (is_device device) rows) ≡ false
unfolding keep
none_with_tag device tag [] h = refl
none_with_tag device tag (x ∷ rows) h = ground (arith, none_with_tag device tag rows)

any-last :
    {A : Type 0} (p : A → Bool) (xs : List A) (x : A) → p x ≡ true → any p (xs ++ x ∷ []) ≡ true
any-last p [] x h = ground arith
any-last p (y ∷ xs) x h = ground (arith, any-last p xs x)

any-keep_neither :
    {A : Type 0} (p : A → Bool) (xs : List A) → any p (keep (λ x. not (p x)) xs) ≡ false
unfolding keep
any-keep_neither p [] = refl
any-keep_neither p (x ∷ xs) = ground (arith, any-keep_neither p xs)

-- A tag assigned to a device twice, by `x` and again, and then removed.
unfoldable pub reassigned : DeviceTag → DeviceTag → TagStore → TagStore
reassigned x again s =
    (remove_tag_from_device x.device_id x.tag_id (assign_tag again (assign_tag x s))).0

module _ (x : DeviceTag) (at : ℕ) (by : Option String) (s : TagStore) where
  abbrev again : DeviceTag
  again = record x { assigned_at = at; assigned_by = by }

  abbrev twice : TagStore
  twice = assign_tag again (assign_tag x s)

  twice_device :
      get_tags_for_device x.device_id twice
      ≡ (get_tags_for_device x.device_id s ++ x ∷ []) ++ again ∷ []
  unfolding assign_tag get_tags_for_device Assignments.insert get_by_device
  twice_device =
      rw
        (at_key-push_at x.device_id x.device_id again
          (push_at x.device_id x s.device_tag_cache.device_tags))
        (rw (same_self x.device_id, string_eq)
          (ap (λ xs. xs ++ again ∷ [])
            (at_key-push_at x.device_id x.device_id x s.device_tag_cache.device_tags
              ∙ rw (same_self x.device_id) refl)))

  pair_self : is_pair x.device_id x.tag_id again ≡ true
  pair_self = rw (same_self x.device_id) (same_self x.tag_id)

  twice_row : any (is_pair x.device_id x.tag_id) twice.db.device_tags ≡ true
  unfolding assign_tag insert_or_replace
  twice_row = any-last (is_pair x.device_id x.tag_id) _ again pair_self

  reassigned_rows :
      (reassigned x again s).db.device_tags
      ≡ keep (λ y. not (is_pair x.device_id x.tag_id y)) twice.db.device_tags
  unfolding reassigned remove_tag_from_device
  reassigned_rows = rw (twice_row, reassigned) refl

  reassigned_gone : any (is_pair x.device_id x.tag_id) (reassigned x again s).db.device_tags ≡ false
  reassigned_gone =
      rw reassigned_rows (any-keep_neither (is_pair x.device_id x.tag_id) twice.db.device_tags)

  reassigned_device :
      any (is_tag x.tag_id) (get_tags_for_device x.device_id s) ≡ false
      → get_tags_for_device x.device_id (reassigned x again s)
        ≡ get_tags_for_device x.device_id s ++ again ∷ []
  unfolding reassigned remove_tag_from_device get_tags_for_device get_by_device Assignments.remove
  reassigned_device h =
      rw (twice_row, reassigned)
        (rw
          (take_found x.device_id x.tag_id twice.device_tag_cache.device_tags
            ∙ ap (λ xs. take_first (is_tag x.tag_id) xs) twice_device
            ∙ take_first_past (is_tag x.tag_id) (get_tags_for_device x.device_id s) x (again ∷ []) h
                (same_self x.tag_id))
          (at_key-insert x.device_id x.device_id _ twice.device_tag_cache.device_tags
            ∙ rw (same_self x.device_id) refl))

  -- When a tag is assigned to a device that does not have it, then assigned to the device again, and
  -- then removed from it, while cache and table agreed before: the table has no row of the tag and the
  -- device any more, but the tag is still given for the device, behind those of before, and removing it
  -- again finds nothing and changes nothing.
  pub reassign_stale :
      IsSynced s.device_tag_cache s.db.device_tags
      → any (is_pair x.device_id x.tag_id) s.db.device_tags ≡ false
      → let after = reassigned x again s in
        (any (is_pair x.device_id x.tag_id) after.db.device_tags ≡ false)
        × (get_tags_for_device x.device_id after ≡ get_tags_for_device x.device_id s ++ again ∷ [])
        × (remove_tag_from_device x.device_id x.tag_id after ≡ (after, none))
  unfolding get_tags_for_device remove_tag_from_device
  reassign_stale i h = (
    reassigned_gone,
    reassigned_device
        (rw (i.by_device x.device_id) (none_with_tag x.device_id x.tag_id s.db.device_tags h)),
    rw reassigned_gone refl,
  )
