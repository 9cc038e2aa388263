-- ===== src/Groups/Synced.antt =====
-- The cache of groups against the table device_groups.
use cc_r_device_agent.Prelude.{
  ◌≡◌, refl, sym, ap, ◌∙◌, inl, inr, String, true, false, not, Option, none, some, List, [], ◌∷◌,
  ◌++◌, str_eq, string_eq, eq_iff, arith, Bool-cases, Option-cases, if◌then◌else◌,
}
use cc_r_device_agent.Prelude.Dict
use cc_r_device_agent.Prelude.Dict.{get-insert, get-remove}
use cc_r_device_agent.Prelude.Sort.{keep}
use cc_r_device_agent.Alerts.Rules.{Floats}
use cc_r_device_agent.Tags.Cache.{find}
use cc_r_device_agent.Groups.{DeviceGroup}
use cc_r_device_agent.Groups.Cache
use cc_r_device_agent.Groups.Cache.{DeviceGroupCache, new_cache}
use cc_r_device_agent.Groups.Store
use cc_r_device_agent.Groups.Store.{
  DeviceGroupStore, empty_store, has_conflict, is_name_taken, has_group, update_rows, updated_row,
}

-- A call that writes.
pub data GroupOp : Type 0 where
  create update : DeviceGroup → GroupOp
  delete : String → GroupOp

-- A group but for the time of its creation.
abbrev pub timeless : Option DeviceGroup → Option DeviceGroup
timeless none = none
timeless (some g) = some (record g { created_at = 0 })

unfoldable pub row_of : String → List DeviceGroup → Option DeviceGroup
unfolding find
row_of id rows = find (λ r. str_eq r.id id) rows

row_of-append :
    (g : DeviceGroup) (id : String) (rows : List DeviceGroup)
    → has_group g.id rows ≡ false
    → row_of id (rows ++ g ∷ []) ≡ (if str_eq g.id id then some g else row_of id rows)
unfolding row_of find
row_of-append g id [] h = refl
row_of-append g id (r ∷ rows) h =
    ground (arith, eq_iff g.id id, eq_iff r.id id, eq_iff r.id g.id, row_of-append g id rows)

row_of_other :
    (g : DeviceGroup) (id : String) (rows : List DeviceGroup)
    → str_eq g.id id ≡ false
    → row_of id (update_rows g rows) ≡ row_of id rows
unfolding row_of find update_rows
row_of_other g id [] h = refl
row_of_other g id (r ∷ rows) h =
    ground (arith, eq_iff r.id g.id, eq_iff r.id id, eq_iff g.id id, row_of_other g id rows)

row_of_self :
    (g : DeviceGroup) (rows : List DeviceGroup)
    → has_group g.id rows ≡ true
    → timeless (row_of g.id (update_rows g rows)) ≡ timeless (some g)
unfolding row_of find update_rows
row_of_self g [] h = absurd (ground arith)
row_of_self g (r ∷ rows) h = elim (Bool-cases (str_eq r.id g.id)) [
  | inl e ↦
      rw e (rw e (ap (λ k. some (record g { id = k; created_at = 0 })) ((eq_iff r.id g.id).0 e)))
  | inr e ↦ rw e (rw e (row_of_self g rows (ground arith)))
]

row_of-some :
    (id : String) (rows : List DeviceGroup)
    → has_group id rows ≡ true
    → timeless none ≡ timeless (row_of id rows)
    → ⊥
unfolding row_of find
row_of-some id [] h e = ground arith
row_of-some id (r ∷ rows) h e = ground (arith, row_of-some id rows)

row_of-delete :
    (k id : String) (rows : List DeviceGroup)
    → row_of id (keep (λ r. not (str_eq r.id k)) rows)
      ≡ (if str_eq k id then none else row_of id rows)
unfolding row_of find keep
row_of-delete k id [] = ground arith
row_of-delete k id (r ∷ rows) =
    ground (arith, eq_iff k id, eq_iff r.id k, eq_iff r.id id, row_of-delete k id rows)

has_group_fresh :
    (g : DeviceGroup) (rows : List DeviceGroup)
    → has_conflict g rows ≡ false
    → has_group g.id rows ≡ false
has_group_fresh g [] h = refl
has_group_fresh g (r ∷ rows) h = ground (arith, has_group_fresh g rows)

module _ (fl : Floats) where
  unfoldable pub step : GroupOp → DeviceGroupStore fl → DeviceGroupStore fl
  step (create g) s = (Store.create fl g s).0
  step (update g) s = (Store.update fl g s).0
  step (delete id) s = (Store.delete fl id s).0

  unfoldable pub run : List GroupOp → DeviceGroupStore fl → DeviceGroupStore fl
  run [] s = s
  run (op ∷ ops) s = run ops (step op s)

  abbrev IsSynced : DeviceGroupStore fl → Type 0
  IsSynced s = (id : String) → timeless (Store.get fl id s) ≡ timeless (row_of id s.rows)

  create-IsSynced :
      (g : DeviceGroup) (s : DeviceGroupStore fl) → IsSynced s → IsSynced (Store.create fl g s).0
  unfolding Store.create Store.get Cache.get Cache.insert Cache.update_stats
  create-IsSynced g s i id = elim (Bool-cases (has_conflict g s.rows)) [
    | inl e ↦ rw e (i id)
    | inr e ↦ rw e (
        rw (get-insert g.id id g s.cache.groups) (
          rw (row_of-append g id s.rows (has_group_fresh g s.rows e))
            (elim (Bool-cases (str_eq g.id id)) [ inl k ↦ rw k refl | inr k ↦ rw k (i id) ])))
  ]

  update_found :
      (g : DeviceGroup) (s : DeviceGroupStore fl)
      → has_group g.id s.rows ≡ true
      → IsSynced s
      → (id : String)
      → timeless (Cache.get fl id (Cache.update fl g s.cache).0)
        ≡ timeless (row_of id (update_rows g s.rows))
  unfolding Store.get Cache.get Cache.update Cache.update_stats
  update_found g s h i id = elim (Option-cases (Dict.get g.id s.cache.groups)) [
    | inl e ↦ absurd (row_of-some g.id s.rows h (sym (ap timeless e) ∙ i g.id))
    | inr (old, e) ↦
        rw (e, Cache.update)
          (rw (get-insert g.id id g s.cache.groups) (elim (Bool-cases (str_eq g.id id)) [
            | inl k ↦ rw k (
                sym (
                  ap (λ j. timeless (row_of j (update_rows g s.rows))) (sym ((eq_iff g.id id).0 k))
                  ∙ row_of_self g s.rows h))
            | inr k ↦ rw k (i id ∙ sym (ap timeless (row_of_other g id s.rows k)))
          ]))
  ]

  update-IsSynced :
      (g : DeviceGroup) (s : DeviceGroupStore fl) → IsSynced s → IsSynced (Store.update fl g s).0
  unfolding Store.update Store.get
  update-IsSynced g s i id = elim (Bool-cases (has_group g.id s.rows)) [
    | inl e ↦ elim (Bool-cases (is_name_taken g s.rows)) [
      | inl n ↦ rw e (rw n (i id))
      | inr n ↦ rw e (rw n (update_found g s e i id))
    ]
    | inr e ↦ rw e (i id)
  ]

  delete_found :
      (k : String) (s : DeviceGroupStore fl)
      → IsSynced s
      → (id : String)
      → timeless (Cache.get fl id (Cache.remove fl k s.cache).0)
        ≡ timeless (if str_eq k id then none else row_of id s.rows)
  unfolding Store.get Cache.get Cache.remove Cache.update_stats
  delete_found k s i id = elim (Option-cases (Dict.get k s.cache.groups)) [
    | inl e ↦
        rw (e, Cache.remove)
          (elim (Bool-cases (str_eq k id)) [
            | inl j ↦
                rw j
                  (ap timeless (ap (λ x. Dict.get x s.cache.groups) (sym ((eq_iff k id).0 j)) ∙ e))
            | inr j ↦ rw j (i id)
          ])
    | inr (old, e) ↦
        rw (e, Cache.remove)
          (rw (get-remove k id s.cache.groups)
            (elim (Bool-cases (str_eq k id)) [ inl j ↦ rw j refl | inr j ↦ rw j (i id) ]))
  ]

  delete-IsSynced :
      (k : String) (s : DeviceGroupStore fl) → IsSynced s → IsSynced (Store.delete fl k s).0
  unfolding Store.delete Store.get
  delete-IsSynced k s i id = elim (Bool-cases (has_group k s.rows)) [
    | inl e ↦ rw e (rw (row_of-delete k id s.rows) (delete_found k s i id))
    | inr e ↦ rw e (i id)
  ]

  step-IsSynced : (op : GroupOp) (s : DeviceGroupStore fl) → IsSynced s → IsSynced (step op s)
  unfolding step
  step-IsSynced (create g) s i = create-IsSynced g s i
  step-IsSynced (update g) s i = update-IsSynced g s i
  step-IsSynced (delete k) s i = delete-IsSynced k s i

  run-IsSynced : (ops : List GroupOp) (s : DeviceGroupStore fl) → IsSynced s → IsSynced (run ops s)
  unfolding run
  run-IsSynced [] s i = i
  run-IsSynced (op ∷ ops) s i = run-IsSynced ops (step op s) (step-IsSynced op s i)

  -- After any calls on an empty store, the group given for an id is the row with the id, but for
  -- the time of creation.
  pub run-get :
      (ops : List GroupOp) (id : String)
      → timeless (Store.get fl id (run ops (empty_store fl)))
        ≡ timeless (row_of id (run ops (empty_store fl)).rows)
  unfolding Store.get Cache.get Dict.get row_of find
  run-get ops id = run-IsSynced ops (empty_store fl) (λ k. refl) id
