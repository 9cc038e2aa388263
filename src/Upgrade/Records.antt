-- ===== src/Upgrade/Records.antt =====
-- The stored records of src/upgrade_engine.rs for an engine that has run an upgrade before.
use cc_r_device_agent.Prelude.{
  String, ◌≡◌, refl, ◌∙◌, inl, inr, false, some, Result-cases, str_eq, string_eq,
}
use cc_r_device_agent.Prelude.Dict
use cc_r_device_agent.Prelude.Dict.{Dict, get-insert_ne, get-insert_self}
use cc_r_device_agent.Upgrade.Package.{
  UpgradeManifest, strategy_failed, File, Codecs, validate_manifest, verify_package,
}
use cc_r_device_agent.Upgrade.Engine.{
  UpgradeState, received, validated, downloading, verifying, pre_check, staging, ready_to_activate,
  activating, post_check, committed, rolling_back, rolled_back, failed, called_stage,
  called_activate, called_rollback, called_post_check, UpgradeStateRecord, persist_state,
  UpgradeStrategy, UpgradeEngine, Run, run, set_state, verify_phase, stage_phase, activate_phase,
  check_phase, roll_back, with_manifest, call,
}

-- The engine works on a manifest, and its store has a record under an identifier.
pub record Has (m : UpgradeManifest) (j : String) (x : UpgradeStateRecord) (g : UpgradeEngine)
    : Type 0 where
  pub works_on : g.current_manifest ≡ some m
  pub table : Dict String UpgradeStateRecord
  pub stores : g.store ≡ some table
  pub finds : Dict.get j table ≡ some x

module _ (st : UpgradeStrategy) (m : UpgradeManifest) (j : String) (x : UpgradeStateRecord)
    (other : str_eq m.app_id j ≡ false) where
  set_state-Has :
      (s : UpgradeState) (r : Run st) → Has m j x r.engine → Has m j x (set_state st s r).engine
  unfolding set_state persist_state
  set_state-Has s r h =
      rw (h.stores, persist_state)
        (rw h.works_on (record {
          works_on = h.works_on;
          table =
              Dict.insert m.app_id
                (record { id = m.app_id; target_version = m.to_version; state = s }) h.table;
          stores = refl;
          finds = get-insert_ne m.app_id j _ h.table other ∙ h.finds;
        }))

  roll_back-Has :
      (e : String) (r : Run st) → Has m j x r.engine → Has m j x (roll_back st m e r).0.engine
  unfolding roll_back
  roll_back-Has e r h =
      set_state-Has rolled_back
        (call st called_rollback (st.rollback m) (set_state st rolling_back r)).1
        (set_state-Has rolling_back r h)

  check_phase-Has : (r : Run st) → Has m j x r.engine → Has m j x (check_phase st m r).0.engine
  unfolding set_state check_phase
  check_phase-Has r h =
      let r' = (call st called_post_check (st.post_check m) (set_state st post_check r)).1 in
      let h' = set_state-Has post_check r h in
      elim (Result-cases (st.post_check m r.world).0) [
        | inl (_, e) ↦ rw (e, check_phase) (set_state-Has committed r' h')
        | inr (y, e) ↦ rw (e, check_phase) (roll_back-Has y r' h')
      ]

  activate_phase-Has :
      (r : Run st) → Has m j x r.engine → Has m j x (activate_phase st m r).0.engine
  unfolding set_state activate_phase
  activate_phase-Has r h =
      let before = set_state st activating (set_state st ready_to_activate r) in
      let r' = (call st called_activate (st.activate m) before).1 in
      let h' =
        set_state-Has activating (set_state st ready_to_activate r)
          (set_state-Has ready_to_activate r h) in
      elim (Result-cases (st.activate m r.world).0) [
        | inl (_, e) ↦ rw (e, activate_phase) (check_phase-Has r' h')
        | inr (y, e) ↦ rw (e, activate_phase) (roll_back-Has y r' h')
      ]

  stage_phase-Has : (r : Run st) → Has m j x r.engine → Has m j x (stage_phase st m r).0.engine
  unfolding set_state stage_phase
  stage_phase-Has r h =
      let before = set_state st staging (set_state st pre_check r) in
      let r' = (call st called_stage (st.stage m) before).1 in
      let h' = set_state-Has staging (set_state st pre_check r) (set_state-Has pre_check r h) in
      elim (Result-cases (st.stage m r.world).0) [
        | inl (_, e) ↦ rw (e, stage_phase) (activate_phase-Has r' h')
        | inr (y, e) ↦ rw (e, stage_phase) (set_state-Has (failed (strategy_failed y)) r' h')
      ]

  module _ (c : Codecs) (f : File) where
    verify_phase-Has :
        (r : Run st) → Has m j x r.engine → Has m j x (verify_phase st c m f r).0.engine
    unfolding verify_phase
    verify_phase-Has r h =
        let r' = set_state st verifying (set_state st downloading r) in
        let h' =
          set_state-Has verifying (set_state st downloading r) (set_state-Has downloading r h) in
        elim (Result-cases (verify_package c m f)) [
          | inl (_, e) ↦ rw (e, verify_phase) (stage_phase-Has r' h')
          | inr (y, e) ↦ rw (e, verify_phase) (set_state-Has (failed y) r' h')
        ]

    run-Has :
        (r : Run st)
        → Has m j x (with_manifest st c m (set_state st received r)).engine
        → Has m j x (run st c m f r).0.engine
    unfolding run
    run-Has r h =
        let start = with_manifest st c m (set_state st received r) in
        let r' = set_state st validated start in
        let h' = set_state-Has validated start h in
        elim (Result-cases (validate_manifest m)) [
          | inl (_, e) ↦ rw (e, run) (verify_phase-Has r' h')
          | inr (y, e) ↦ rw (e, run) (set_state-Has (failed y) r' h')
        ]

-- An engine with a store that has worked on another application leaves that application's record
-- with the state `received` when it runs an upgrade, whatever the record said and however the new
-- upgrade ends.
pub run_overwrites_previous :
    (st : UpgradeStrategy) (c : Codecs) (m m' : UpgradeManifest) (f : File) (r : Run st)
    (t : Dict String UpgradeStateRecord)
    → r.engine.current_manifest ≡ some m'
    → r.engine.store ≡ some t
    → str_eq m.app_id m'.app_id ≡ false
    → (t' : Dict String UpgradeStateRecord) × ((run st c m f r).0.engine.store ≡ some t')
      × (Dict.get m'.app_id t'
          ≡ some (record { id = m'.app_id; target_version = m'.to_version; state = received }))
unfolding set_state persist_state
run_overwrites_previous st c m m' f r t w s ne =
    let x : UpgradeStateRecord = record {
      id = m'.app_id;
      target_version = m'.to_version;
      state = received;
    } in
    let h = run-Has st m m'.app_id x ne c f r (
      rw (s, persist_state)
        (rw w (record {
          works_on = refl;
          table = Dict.insert m'.app_id x t;
          stores = refl;
          finds = get-insert_self m'.app_id x t;
        }))) in
    (h.table, h.stores, h.finds)
