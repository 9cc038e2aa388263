-- ===== src/Config/Reads.antt =====
-- What a read of src/config_manager.rs finds after a write.
use cc_r_device_agent.Prelude.{
  ℕ, ◌+◌, ◌-◌, ◌^◌, ◌≤◌, ◌<◌, ◌≡◌, refl, ap, sym, ◌∙◌, String, Bool, true, false, ◌||◌, Option,
  none, some, [], ◌∷◌, any, arith, inl, inr, Bool-cases, Option-cases, string_eq, is_some, str_eq,
  eq_iff,
}
use mathlib.Core.Option
use cc_r_device_agent.Prelude.Dict
use cc_r_device_agent.Prelude.Dict.{get-insert_self, get-remove}
use cc_r_device_agent.Config.Table.{
  ConfigVersionRecord, Table, insert_config_version, load_latest_config, same_row,
}
use cc_r_device_agent.Config.Manager.{
  ConfigScope, scope_eq, scope_name, ConfigManager, Inner, inner_set, inner_get, inner_delete,
  persist, set, delete, stored_version, get, stored, decode_config_value, map_of,
}
use cc_r_device_agent.Config.Versions.{is_below, is_ahead, inner_delete-version}

-- A row that is newer than all others is inserted.
insert_newer :
    (r : ConfigVersionRecord) (n : ℕ) (t : Table)
    → is_below n t ≡ true
    → n < r.version
    → any (same_row r) t ≡ false
insert_newer r n [] h l = refl
insert_newer r n (q ∷ t) h l = ground (arith, insert_newer r n t)

latest_below :
    (scope key : String) (n : ℕ) (t : Table) (r : ConfigVersionRecord)
    → is_below n t ≡ true
    → load_latest_config scope key t ≡ some r
    → r.version ≤ n
unfolding load_latest_config
latest_below scope key n [] r h e = absurd (ground arith)
latest_below scope key n (q ∷ t) r h e = elim (Option-cases (load_latest_config scope key t)) [
  | inl g ↦ ground arith
  | inr (x, g) ↦ let below = latest_below scope key n t x (ground arith) g in ground arith
]

-- It is then the latest of its scope and key.
latest-insert :
    (r : ConfigVersionRecord) (n : ℕ) (t : Table)
    → is_below n t ≡ true
    → n < r.version
    → load_latest_config r.scope r.key (insert_config_version r t).0 ≡ some r
unfolding insert_config_version load_latest_config
latest-insert r n t h l =
    let same_scope = (eq_iff r.scope r.scope).1 refl in
    let same_key = (eq_iff r.key r.key).1 refl in
    rw (insert_newer r n t h l) (elim (Option-cases (load_latest_config r.scope r.key t)) [
      | inl g ↦ ground arith
      | inr (q, g) ↦ let below = latest_below r.scope r.key n t q h g in ground arith
    ])

-- A row that is older than the latest of its scope and key is not read.
latest_older :
    (q r : ConfigVersionRecord) (t : Table)
    → load_latest_config q.scope q.key t ≡ some r
    → q.version < r.version
    → load_latest_config q.scope q.key (insert_config_version q t).0 ≡ some r
unfolding insert_config_version load_latest_config
latest_older q r t e l = elim (Bool-cases (any (same_row q) t)) [
  | inl b ↦ rw b e
  | inr b ↦ rw b (ground (arith, e, (eq_iff q.scope q.scope).1 refl, (eq_iff q.key q.key).1 refl))
]

pub is_below_mono : (n : ℕ) (t : Table) → is_below n t ≡ true → is_below (n + 1) t ≡ true
is_below_mono n [] h = refl
is_below_mono n (r ∷ t) h = ground (arith, is_below_mono n t)

pub insert-is_below :
    (r : ConfigVersionRecord) (n : ℕ) (t : Table)
    → is_below n t ≡ true
    → r.version ≤ n + 1
    → is_below (n + 1) (insert_config_version r t).0 ≡ true
unfolding insert_config_version
insert-is_below r n t h l =
    let kept = is_below_mono n t h in
    elim (Bool-cases (any (same_row r) t)) [ inl b ↦ rw b kept | inr b ↦ rw b (ground arith) ]

inner_get-set :
    (s : ConfigScope) (k v : String) (i : Inner)
    → inner_get s k (inner_set s k v i).0 ≡ some (v, i.global_version + 1)
unfolding inner_get inner_set
inner_get-set s k v i =
    let v' = i.global_version + 1 in
    let placed = get-insert_self s (Dict.insert k (v, v') (map_of s i)) i.scopes in
    rw (placed, inner_get) (get-insert_self k (v, v') (map_of s i))

inner_get-delete :
    (s : ConfigScope) (k : String) (i : Inner) → inner_get s k (inner_delete s k i).0 ≡ none
unfolding inner_get inner_delete
inner_get-delete s k i = elim (Option-cases (Dict.get s i.scopes)) [
  | inl e ↦ rw (e, inner_delete, inner_get) (rw (e, inner_get))
  | inr (m, e) ↦
      let placed = get-insert_self s (Dict.remove k m) i.scopes in
      rw (e, inner_delete, inner_get)
        (rw (placed, inner_get) (get-remove k k m ∙ rw ((eq_iff k k).1 refl)))
]

not_some {ℓ} : {A : Type ℓ} (o : Option A) → is_some o ≡ false → o ≡ none
not_some none h = refl
not_some (some a) h = absurd (ground arith)

no_right : (a b : Bool) → (a || b) ≡ false → b ≡ false
no_right a b h = ground arith

-- The row that `persist` adds.
abbrev row_of : ConfigScope → String → ℕ → String → ConfigVersionRecord
row_of s k version json = record {
  scope = scope_name s;
  key = k;
  version = stored_version version;
  value_json = json;
  signature = none;
}

latest-persist :
    (s : ConfigScope) (k json : String) (n : ℕ) (t : Table)
    → is_below n t ≡ true
    → n < 2 ^ 63 - 1
    → load_latest_config (scope_name s) k (insert_config_version (row_of s k (n + 1) json) t).0
      ≡ some (row_of s k (n + 1) json)
latest-persist s k json n t h b = latest-insert (row_of s k (n + 1) json) n t h (omega arith)

module _ (to_json : String → String) (from_json : String → Option String) where
  -- A text as JSON is read back as it was, and is not `null`.
  pub record IsRead (v : String) : Type 0 where
    pub back : from_json (to_json v) ≡ some v
    pub not_null : str_eq (to_json v) "null" ≡ false

  decode-json : (v : String) → IsRead v → decode_config_value to_json from_json (to_json v) ≡ some v
  unfolding decode_config_value
  decode-json v j = rw j.not_null (rw j.back)

  decode-null : decode_config_value to_json from_json "null" ≡ none
  unfolding decode_config_value
  decode-null = refl

  get-stored :
      (m : ConfigManager) (s : ConfigScope) (k : String) (r : ConfigVersionRecord)
      → stored to_json from_json s k m ≡ some r
      → get to_json from_json s k m ≡ decode_config_value to_json from_json r.value_json
  unfolding get
  get-stored m s k r e = rw (e, get)

  get-memory :
      (m : ConfigManager) (s : ConfigScope) (k : String)
      → stored to_json from_json s k m ≡ none
      → get to_json from_json s k m ≡ Option.map (λ e. e.0) (inner_get s k m.inner)
  unfolding get
  get-memory m s k e = rw (e, get)

  -- If the rows of the manager are not ahead of its version, which is below 2^63 - 1, a value that is
  -- set, whose JSON is read back as it was and is not `null`, is what the next read of the key gives.
  pub get-set :
      (m : ConfigManager) (s : ConfigScope) (k v : String)
      → is_ahead to_json from_json m ≡ true
      → m.inner.global_version < 2 ^ 63 - 1
      → IsRead v
      → get to_json from_json s k (set to_json from_json s k v m).0 ≡ some v
  unfolding set persist
  get-set m s k v h b j = elim (Option-cases m.store) [
    | inl e ↦
        get-memory (set to_json from_json s k v m).0 s k (rw (e, set, persist))
        ∙ ap (Option.map (λ z. z.0)) (inner_get-set s k v m.inner)
    | inr (t, e) ↦
        get-stored (set to_json from_json s k v m).0 s k
          (row_of s k (m.inner.global_version + 1) (to_json v))
          (rw (e, set, persist)
            (latest-persist s k (to_json v) m.inner.global_version t (ground arith) b))
        ∙ decode-json v j
  ]

  -- As long as the next version of a manager, which counts from 0 after a restart, is below the
  -- version of the latest row of a key in its table, a value that is set for the key is not what
  -- reads give: they still give that row.
  pub set_shadowed :
      (m : ConfigManager) (t : Table) (r : ConfigVersionRecord) (s : ConfigScope) (k v : String)
      → m.store ≡ some t
      → load_latest_config (scope_name s) k t ≡ some r
      → m.inner.global_version + 1 < r.version
      → let o = set to_json from_json s k v m in
        (o.1.version ≡ m.inner.global_version + 1)
        × (get to_json from_json s k o.0 ≡ decode_config_value to_json from_json r.value_json)
  unfolding set inner_set persist
  set_shadowed m t r s k v at e l =
      let row = row_of s k (m.inner.global_version + 1) (to_json v) in
      (
        refl,
        get-stored (set to_json from_json s k v m).0 s k r
            (rw (at, set, persist) (latest_older row r t e (omega arith))),
      )

  -- If the rows of the manager are not ahead of its version, which is below 2^63 - 1, a key that is
  -- deleted is not found by the next read.
  pub get-delete :
      (m : ConfigManager) (s : ConfigScope) (k : String)
      → is_ahead to_json from_json m ≡ true
      → m.inner.global_version < 2 ^ 63 - 1
      → get to_json from_json s k (delete to_json from_json s k m).0 ≡ none
  unfolding delete persist
  get-delete m s k h b =
      let gone = inner_get-delete s k m.inner in
      elim (Bool-cases ((inner_delete s k m.inner).1 || is_some (get to_json from_json s k m))) [
        | inl d ↦ elim (Option-cases m.store) [
          | inl e ↦ rw d (get-memory _ s k (rw (e, persist)) ∙ ap (Option.map (λ z. z.0)) gone)
          | inr (t, e) ↦
              let row = row_of s k (m.inner.global_version + 1) "null" in
              rw d (
                get-stored _ s k row (
                  rw (e, persist)
                    (rw (inner_delete-version s k m.inner)
                      (latest-persist s k "null" m.inner.global_version t (ground arith) b)))
                ∙ decode-null)
        ]
        | inr d ↦ elim (Option-cases (stored to_json from_json s k m)) [
          | inl e ↦ rw d (get-memory _ s k e ∙ ap (Option.map (λ z. z.0)) gone)
          | inr (r, e) ↦
              rw d (get-stored _ s k r e ∙ sym (get-stored m s k r e) ∙ not_some _ (no_right _ _ d))
        ]
      ]
