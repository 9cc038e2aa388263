-- ===== src/Upgrade/Outcomes.antt =====
-- How an upgrade of src/upgrade_engine.rs ends, and what has happened by then.
use cc_r_device_agent.Prelude.{
  String, ◌≡◌, refl, ◌⊎◌, inl, inr, List, ◌∷◌, Result, ok, err, Result-cases,
}
use cc_r_device_agent.Upgrade.Package.{
  UpgradeManifest, UpgradeError, strategy_failed, File, Codecs, validate_manifest, verify_package,
}
use cc_r_device_agent.Upgrade.Engine.{
  UpgradeState, received, validated, downloading, verifying, pre_check, staging, ready_to_activate,
  activating, post_check, committed, rolling_back, rolled_back, failed, Event, entered,
  called_stage, called_activate, called_rollback, called_post_check, UpgradeStrategy, Run, Outcome,
  run, set_state, verify_phase, stage_phase, activate_phase, check_phase, roll_back, call,
  with_manifest,
}
use cc_r_device_agent.Upgrade.Verified.{state-set_state}

module _ (st : UpgradeStrategy) where
  open st use {World}

  -- The events of a start, the newest first, up to the call of `stage`.
  abbrev pub downloaded : List Event → List Event
  downloaded before = entered downloading ∷ entered validated ∷ entered received ∷ before

  abbrev pub started : List Event → List Event
  started before =
      called_stage ∷ entered staging ∷ entered pre_check ∷ entered verifying ∷ downloaded before

  abbrev pub tried : List Event → List Event
  tried before = called_activate ∷ entered activating ∷ entered ready_to_activate ∷ before

  abbrev pub inspected : List Event → List Event
  inspected before = called_post_check ∷ entered post_check ∷ before

  abbrev pub undone : List Event → List Event
  undone before = entered rolled_back ∷ called_rollback ∷ entered rolling_back ∷ before

  -- An outcome: what is answered, the state, the world and the trace.
  abbrev pub Ends :
      Result UpgradeError (Unit {0}) → UpgradeState → World → List Event → Outcome st → Type 0
  Ends result state w events o =
      (o.1 ≡ result) × (o.0.engine.state ≡ state) × (o.0.world ≡ w) × (o.0.trace ≡ events)

  -- From the activation on, in the world `w` behind the staging.
  abbrev pub IsActivated : UpgradeManifest → World → List Event → Outcome st → Type 0
  IsActivated m w before o =
      let a = st.activate m w in
      let p = st.post_check m a.1 in
      ((a.0 ≡ ok tt)
        × (p.0 ≡ ok tt)
        × Ends (ok tt) committed p.1 (entered committed ∷ inspected (tried before)) o)
      ⊎ (((x : String) × (a.0 ≡ err x)
            × Ends (err (strategy_failed x)) rolled_back (st.rollback m a.1).1
                (undone (tried before)) o)
          ⊎ ((x : String) × (a.0 ≡ ok tt)
              × (p.0 ≡ err x)
              × Ends (err (strategy_failed x)) rolled_back (st.rollback m p.1).1
                  (undone (inspected (tried before))) o))

  roll_back-Ends :
      (m : UpgradeManifest) (x : String) (r : Run st)
      → Ends
          (err (strategy_failed x))
          rolled_back
          (st.rollback m r.world).1
          (undone r.trace)
          (roll_back st m x r)
  unfolding roll_back set_state
  roll_back-Ends m x r =
      let r' = (call st called_rollback (st.rollback m) (set_state st rolling_back r)).1 in
      (refl, state-set_state st rolled_back r', refl, refl)

  -- The state is committed behind a post check that passes; behind one that fails with `x` it is
  -- rolled back.
  abbrev IsChecked : UpgradeManifest → Run st → Outcome st → Type 0
  IsChecked m r o =
      let p = st.post_check m r.world in
      ((p.0 ≡ ok tt) × Ends (ok tt) committed p.1 (entered committed ∷ inspected r.trace) o)
      ⊎ ((x : String) × (p.0 ≡ err x)
          × Ends (err (strategy_failed x)) rolled_back (st.rollback m p.1).1
              (undone (inspected r.trace)) o)

  check_phase_ends : (m : UpgradeManifest) (r : Run st) → IsChecked m r (check_phase st m r)
  unfolding set_state check_phase
  check_phase_ends m r =
      let r' = (call st called_post_check (st.post_check m) (set_state st post_check r)).1 in
      elim (Result-cases (st.post_check m r.world).0) [
        | inl (_, e) ↦
            rw (e, check_phase) (inl (refl, (refl, state-set_state st committed r', refl, refl)))
        | inr (y, e) ↦ rw (e, check_phase) (inr (y, refl, roll_back-Ends m y r'))
      ]

  activate_ends :
      (m : UpgradeManifest) (r : Run st) → IsActivated m r.world r.trace (activate_phase st m r)
  unfolding set_state activate_phase
  activate_ends m r =
      let r' =
        (call st called_activate (st.activate m)
          (set_state st activating (set_state st ready_to_activate r))).1 in
      elim (Result-cases (st.activate m r.world).0) [
        | inr (y, e) ↦ rw (e, activate_phase) (inr (inl (y, refl, roll_back-Ends m y r')))
        | inl (_, e) ↦
            rw (e, activate_phase)
              (elim (check_phase_ends m r') [
                | inl (p, done) ↦ inl (refl, p, done)
                | inr (y, p, back) ↦ inr (inr (y, refl, p, back))
              ])
      ]

  -- A check failed, and the strategy was not called.
  abbrev pub IsUnchecked : Codecs → UpgradeManifest → File → Run st → Outcome st → Type 0
  IsUnchecked c m f r o =
      (e : UpgradeError) × (((validate_manifest m ≡ err e)
          × Ends (err e) (failed e) r.world
              (entered (failed e) ∷ entered validated ∷ entered received ∷ r.trace) o)
        ⊎ ((validate_manifest m ≡ ok tt)
            × (verify_package c m f ≡ err e)
            × Ends (err e) (failed e) r.world
                (entered (failed e) ∷ entered verifying ∷ downloaded r.trace) o))

  -- The staging failed, and nothing else was called.
  abbrev pub IsUnstaged : UpgradeManifest → Run st → Outcome st → Type 0
  IsUnstaged m r o =
      let s = st.stage m r.world in
      (x : String) × (s.0 ≡ err x)
      × Ends (err (strategy_failed x)) (failed (strategy_failed x)) s.1
          (entered (failed (strategy_failed x)) ∷ started r.trace) o

  -- Every upgrade, whatever the checks and the strategy answer, ends with what they answer. If the
  -- check of the manifest or of the package fails, it fails with that error, and the strategy is not
  -- called. If the staging fails, it fails with that error, and nothing else is called. If the
  -- activation fails, or the post check behind it, it is rolled back, once, in the world that the
  -- failed call has left, and its error is that of the failed call. If all pass, it is committed with
  -- success. In each case the phases and calls are exactly those on this way, in their order, and the
  -- world is the one that the last call has left.
  pub run_outcomes :
      (c : Codecs) (m : UpgradeManifest) (f : File) (r : Run st)
      → let o = run st c m f r in
        IsUnchecked c m f r o
        ⊎ ((validate_manifest m ≡ ok tt)
            × (verify_package c m f ≡ ok tt)
            × (IsUnstaged m r o
                ⊎ (((st.stage m r.world).0 ≡ ok tt)
                    × IsActivated m (st.stage m r.world).1 (started r.trace) o)))
  unfolding run set_state verify_phase stage_phase
  run_outcomes c m f r =
      let r1 = set_state st validated (with_manifest st c m (set_state st received r)) in
      let r2 = set_state st verifying (set_state st downloading r1) in
      let r3 = set_state st staging (set_state st pre_check r2) in
      let r4 = (call st called_stage (st.stage m) r3).1 in
      elim (Result-cases (validate_manifest m)) [
        | inr (e, v) ↦
            rw (v, run) (inl (e, inl (refl, (refl, state-set_state st (failed e) r1, refl, refl))))
        | inl (_, v) ↦ elim (Result-cases (verify_package c m f)) [
          | inr (e, p) ↦
              rw (v, run)
                (rw (p, verify_phase)
                  (inl (e, inr (refl, refl, (refl, state-set_state st (failed e) r2, refl, refl)))))
          | inl (_, p) ↦ elim (Result-cases (st.stage m r.world).0) [
            | inr (y, t) ↦
                let e = strategy_failed y in
                rw (v, run)
                  (rw (p, verify_phase)
                    (rw (t, stage_phase)
                      (inr (
                        refl,
                        refl,
                        inl (y, refl, (refl, state-set_state st (failed e) r4, refl, refl)),
                      ))))
            | inl (_, t) ↦
                rw (v, run)
                  (rw (p, verify_phase)
                    (rw (t, stage_phase) (inr (refl, refl, inr (refl, activate_ends m r4)))))
          ]
        ]
      ]
