-- ===== src/Tags/Synced.antt =====
-- The cache of assignments against the table device_tags: what keeps the two together.
use cc_r_device_agent.Prelude.{
  ◌≡◌, refl, sym, ap, ◌∙◌, inl, inr, String, Bool, true, false, not, List, [], ◌∷◌, ◌++◌, any,
  str_eq, string_eq, eq_iff, arith, Bool-cases, if◌then◌else◌,
}
use mathlib.Core.List.{append-nil}
use cc_r_device_agent.Prelude.Sort.{keep}
use cc_r_device_agent.Tags.{DeviceTag}
use cc_r_device_agent.Tags.Assignments
use cc_r_device_agent.Tags.Assignments.{
  DeviceTagCache, at_key, take_first, get_by_device, get_by_tag, is_pair, is_device, is_tag,
}
use cc_r_device_agent.Tags.Store.{insert_or_replace}
use cc_r_device_agent.Tags.Rows.{
  keep-append, keep_comm, keep_absorb, keep-not, keep_neither, keep_apart, take_found,
  at_key-insert, at_key-remove, at_key-push_at, at_key-retain_at, at_key-retain_all, IsUnique,
  keep-IsUnique, snoc-IsUnique, take_first_unique,
}

-- The lists of the cache are the rows of the table, and these are unique.
pub record IsSynced (c : DeviceTagCache) (rows : List DeviceTag) : Type 0 where
  pub unique : IsUnique rows
  pub by_device : (device : String) → get_by_device device c ≡ keep (is_device device) rows
  pub by_tag : (tag : String) → get_by_tag tag c ≡ keep (is_tag tag) rows

-- The test of a key agrees with the test of a new row.
keep_last :
    (p : DeviceTag → Bool) (x : DeviceTag) (rows : List DeviceTag)
    → (if p x then keep p rows ++ x ∷ [] else keep p rows) ≡ keep p (rows ++ x ∷ [])
unfolding keep
keep_last p x rows =
    rw (keep-append p rows (x ∷ [])) (elim (Bool-cases (p x)) [
      | inl e ↦ rw e refl
      | inr e ↦ rw e (sym (append-nil (keep p rows)))
    ])

pub insert-IsSynced :
    (x : DeviceTag) (c : DeviceTagCache) (rows : List DeviceTag)
    → any (is_pair x.device_id x.tag_id) rows ≡ false
    → IsSynced c rows
    → IsSynced (Assignments.insert x c) (insert_or_replace x rows)
unfolding Assignments.insert insert_or_replace get_by_device get_by_tag
insert-IsSynced x c rows h s = rw (keep-not (is_pair x.device_id x.tag_id) rows h) record {
  unique = snoc-IsUnique x rows h s.unique;
  by_device = λ device.
      at_key-push_at x.device_id device x c.device_tags
      ∙ ap (λ ys. if is_device device x then ys ++ x ∷ [] else ys) (s.by_device device)
      ∙ keep_last (is_device device) x rows;
  by_tag = λ tag.
      at_key-push_at x.tag_id tag x c.tag_devices
      ∙ ap (λ ys. if is_tag tag x then ys ++ x ∷ [] else ys) (s.by_tag tag)
      ∙ keep_last (is_tag tag) x rows;
}

apart_device :
    (device tag other : String) (x : DeviceTag)
    → is_device other x ≡ true
    → str_eq device other ≡ false
    → not (is_pair device tag x) ≡ true
apart_device device tag other x h n =
    ground (arith, eq_iff x.device_id other, eq_iff x.device_id device, eq_iff device other)

apart_tag :
    (device tag other : String) (x : DeviceTag)
    → is_tag other x ≡ true
    → str_eq tag other ≡ false
    → not (is_pair device tag x) ≡ true
apart_tag device tag other x h n =
    ground (arith, eq_iff x.tag_id other, eq_iff x.tag_id tag, eq_iff tag other)

pub remove-IsSynced :
    (device tag : String) (c : DeviceTagCache) (rows : List DeviceTag)
    → any (is_pair device tag) rows ≡ true
    → IsSynced c rows
    → IsSynced (Assignments.remove device tag c).0 (keep (λ x. not (is_pair device tag x)) rows)
unfolding Assignments.remove get_by_device get_by_tag
remove-IsSynced device tag c rows h s =
    let (y, p, q) = take_first_unique device tag rows s.unique h in
    rw
      (take_found device tag c.device_tags
        ∙ ap (λ xs. take_first (is_tag tag) xs) (s.by_device device)
        ∙ q)
      record {
        unique = keep-IsUnique _ rows s.unique;
        by_device = λ d.
            at_key-insert device d _ c.device_tags ∙ elim (Bool-cases (str_eq device d)) [
              | inl e ↦ rw e (
                  ap (λ k. keep (is_device k) (keep (λ x. not (is_pair device tag x)) rows))
                    ((eq_iff device d).0 e))
              | inr e ↦ rw e (
                  s.by_device d
                  ∙ sym (
                      keep_absorb (is_device d) (λ x. not (is_pair device tag x))
                        (λ x i. apart_device device tag d x i e) rows))
            ];
        by_tag = λ t.
            at_key-retain_at y.tag_id t _ c.tag_devices
            ∙ rw p (elim (Bool-cases (str_eq tag t)) [
              | inl e ↦ rw e (
                  ap (λ xs. keep (λ x. not (is_pair device tag x)) xs) (s.by_tag t)
                  ∙ keep_comm _ _ rows)
              | inr e ↦ rw e (
                  s.by_tag t
                  ∙ sym (
                      keep_absorb (is_tag t) (λ x. not (is_pair device tag x))
                        (λ x i. apart_tag device tag t x i e) rows))
            ]);
      }

pub remove_by_device-IsSynced :
    (device : String) (c : DeviceTagCache) (rows : List DeviceTag)
    → IsSynced c rows
    → IsSynced (Assignments.remove_by_device device c).0 (keep (λ x. not (is_device device x)) rows)
unfolding Assignments.remove_by_device get_by_device get_by_tag
remove_by_device-IsSynced device c rows s = record {
  unique = keep-IsUnique _ rows s.unique;
  by_device = λ d. at_key-remove device d c.device_tags ∙ elim (Bool-cases (str_eq device d)) [
    | inl e ↦ rw e (rw (sym ((eq_iff device d).0 e)) (sym (keep_neither (is_device device) rows)))
    | inr e ↦ rw e (
        s.by_device d
        ∙ sym (
            keep_absorb (is_device d) (λ x. not (is_device device x))
              (λ x i.
                ground (arith, eq_iff x.device_id d, eq_iff x.device_id device, eq_iff device d))
              rows))
  ];
  by_tag = λ tag.
      at_key-retain_all device tag (at_key device c.device_tags) c.tag_devices
      ∙ rw (s.by_device device, get_by_device)
          (elim (Bool-cases (any (is_tag tag) (keep (is_device device) rows))) [
            | inl e ↦ rw e (
                ap (λ xs. keep (λ x. not (is_device device x)) xs) (s.by_tag tag)
                ∙ keep_comm _ _ rows)
            | inr e ↦ rw e (s.by_tag tag ∙ sym (keep_apart (is_device device) (is_tag tag) rows e))
          ]);
}
