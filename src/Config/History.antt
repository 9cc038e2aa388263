-- ===== src/Config/History.antt =====
-- src/config_manager.rs from a start with an empty table: every read after a write.
use cc_r_device_agent.Prelude.{
  ℕ, ◌+◌, ◌-◌, ◌^◌, ◌≤◌, ◌<◌, ◌≡◌, refl, ◌∙◌, String, true, ◌||◌, Option, none, some, List, [], ◌∷◌,
  arith, inl, inr, Bool-cases, Option-cases, is_some, length,
}
use cc_r_device_agent.Config.Manager.{
  ConfigScope, ConfigManager, inner_set, inner_delete, persist, set, delete, get, new_with_store,
  stored_version,
}
use cc_r_device_agent.Config.Versions.{
  Op, set_to, deleted, is_ahead, step, run, step-version, inner_delete-version,
}
use cc_r_device_agent.Config.Reads.{insert-is_below, is_below_mono, IsRead, get-set, get-delete}

stored_version-le : (v : ℕ) → stored_version v ≤ v
stored_version-le v = omega arith

module _ (to_json : String → String) (from_json : String → Option String) where
  step-is_ahead :
      (o : Op) (m : ConfigManager)
      → is_ahead to_json from_json m ≡ true
      → is_ahead to_json from_json (step to_json from_json o m).0 ≡ true
  unfolding set delete inner_set persist
  step-is_ahead (set_to s k v) m h = elim (Option-cases m.store) [
    | inl e ↦ rw e
    | inr (t, e) ↦ rw e (
        insert-is_below _ m.inner.global_version t (ground arith)
          (stored_version-le (m.inner.global_version + 1)))
  ]
  step-is_ahead (deleted s k) m h =
      let v = inner_delete-version s k m.inner in
      elim (Bool-cases ((inner_delete s k m.inner).1 || is_some (get to_json from_json s k m))) [
        | inl d ↦ elim (Option-cases m.store) [
          | inl e ↦ rw d (rw e)
          | inr (t, e) ↦ rw d (
              rw e (
                rw v (
                  insert-is_below _ m.inner.global_version t (ground arith)
                    (stored_version-le (m.inner.global_version + 1)))))
        ]
        | inr d ↦ elim (Option-cases m.store) [
          | inl e ↦ rw d (rw e)
          | inr (t, e) ↦ rw d (rw e (rw v (is_below_mono m.inner.global_version t (ground arith))))
        ]
      ]

  run-is_ahead :
      (os : List Op) (m : ConfigManager)
      → is_ahead to_json from_json m ≡ true
      → (is_ahead to_json from_json (run to_json from_json os m).0 ≡ true)
        × ((run to_json from_json os m).0.inner.global_version ≡ m.inner.global_version + length os)
  unfolding run
  run-is_ahead [] m h = (h, omega arith)
  run-is_ahead (o ∷ os) m h =
      let (ahead, grown) = run-is_ahead os (step to_json from_json o m).0 (step-is_ahead o m h) in
      (ahead, grown ∙ omega (arith, (step-version to_json from_json o m).0))

  -- After any sequence of fewer than 2^63 - 1 writes to a manager with an empty table, a value that
  -- is set, whose JSON is read back as it was and is not `null`, is what the next read of its key
  -- gives, and a key that is deleted is not found.
  pub run-reads :
      (os : List Op) (s : ConfigScope) (k v : String)
      → length os < 2 ^ 63 - 1
      → IsRead to_json from_json v
      → let m = (run to_json from_json os (new_with_store [])).0 in
        (get to_json from_json s k (set to_json from_json s k v m).0 ≡ some v)
        × (get to_json from_json s k (delete to_json from_json s k m).0 ≡ none)
  unfolding new_with_store
  run-reads os s k v b j =
      let (ahead, grown) = run-is_ahead os (new_with_store []) refl in
      let m = (run to_json from_json os (new_with_store [])).0 in
      (
        get-set to_json from_json m s k v ahead (omega (arith, grown)) j,
        get-delete to_json from_json m s k ahead (omega (arith, grown)),
      )
