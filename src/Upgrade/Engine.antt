-- ===== src/Upgrade/Engine.antt =====
-- src/upgrade_engine.rs, `UpgradeEngine`: the phases of an upgrade over a strategy. The reason of a
-- failed state is the error in place of its text, and a stored record has the state in place of its
-- two texts. The trace is what an observer of the engine sees, the newest first.
use cc_r_device_agent.Prelude.{String, Option, none, some, List, ◌∷◌, Result, ok, err, string_eq}
use cc_r_device_agent.Prelude.Dict
use cc_r_device_agent.Prelude.Dict.{Dict}
use cc_r_device_agent.Upgrade.Package.{
  UpgradeManifest, UpgradeError, strategy_failed, Codecs, File, validate_manifest, verify_package,
}

pub data UpgradeState : Type 0 where
  idle received validated downloading verifying pre_check staging ready_to_activate : UpgradeState
  activating post_check committed rolling_back rolled_back : UpgradeState
  failed : UpgradeError → UpgradeState

-- The staging directory is that of the application under the staging root.
pub record UpgradeStrategy : Type 1 where
  pub World : Type 0
  pub stage : UpgradeManifest → World → Result String (Unit {0}) × World
  pub activate : UpgradeManifest → World → Result String (Unit {0}) × World
  pub rollback : UpgradeManifest → World → Result String (Unit {0}) × World
  pub post_check : UpgradeManifest → World → Result String (Unit {0}) × World

pub record UpgradeStateRecord : Type 0 where
  pub id : String
  pub target_version : String
  pub state : UpgradeState

pub record UpgradeEngine : Type 0 where
  pub state : UpgradeState
  pub current_manifest : Option UpgradeManifest
  pub store : Option (Dict String UpgradeStateRecord)

pub data Event : Type 0 where
  entered : UpgradeState → Event
  called_stage called_activate called_rollback called_post_check : Event

-- The record is stored under the identifier of the current manifest, if there is one.
unfoldable pub persist_state : UpgradeEngine → UpgradeEngine
persist_state g = elim g.store [
  | none ↦ g
  | some t ↦ elim g.current_manifest [
    | none ↦ g
    | some m ↦ record g {
      store = some (
          Dict.insert m.app_id
            (record { id = m.app_id; target_version = m.to_version; state = g.state }) t);
    }
  ]
]

module _ (st : UpgradeStrategy) where
  open st use {World}

  pub record Run : Type 0 where
    pub engine : UpgradeEngine
    pub world : World
    pub trace : List Event

  abbrev pub Outcome : Type 0
  Outcome = Run × Result UpgradeError (Unit {0})

  unfoldable pub set_state : UpgradeState → Run → Run
  unfolding persist_state
  set_state s r = record r {
    engine = persist_state (record r.engine { state = s });
    trace = entered s ∷ r.trace;
  }

  -- A call of the strategy.
  abbrev pub call :
      Event → (World → Result String (Unit {0}) × World) → Run → Result String (Unit {0}) × Run
  call e f r = let (x, w) = f r.world in (x, record r { world = w; trace = e ∷ r.trace })

  abbrev pub fail : UpgradeError → Run → Outcome
  fail e r = (set_state (failed e) r, err e)

  -- The result of the rollback is dropped.
  unfoldable pub roll_back : UpgradeManifest → String → Run → Outcome
  unfolding set_state
  roll_back m e r =
      let r' = (call called_rollback (st.rollback m) (set_state rolling_back r)).1 in
      (set_state rolled_back r', err (strategy_failed e))

  unfoldable pub check_phase : UpgradeManifest → Run → Outcome
  unfolding set_state roll_back
  check_phase m r =
      let (x, r') = call called_post_check (st.post_check m) (set_state post_check r) in
      elim x [ ok _ ↦ (set_state committed r', ok tt) | err e ↦ roll_back m e r' ]

  unfoldable pub activate_phase : UpgradeManifest → Run → Outcome
  unfolding set_state roll_back check_phase
  activate_phase m r =
      let (x, r') =
        call called_activate (st.activate m)
          (set_state activating (set_state ready_to_activate r)) in
      elim x [ ok _ ↦ check_phase m r' | err e ↦ roll_back m e r' ]

  unfoldable pub stage_phase : UpgradeManifest → Run → Outcome
  unfolding set_state activate_phase
  stage_phase m r =
      let (x, r') = call called_stage (st.stage m) (set_state staging (set_state pre_check r)) in
      elim x [ ok _ ↦ activate_phase m r' | err e ↦ fail (strategy_failed e) r' ]

  module _ (c : Codecs) where
    unfoldable pub verify_phase : UpgradeManifest → File → Run → Outcome
    unfolding set_state stage_phase
    verify_phase m file r =
        let r' = set_state verifying (set_state downloading r) in
        elim (verify_package c m file) [ ok _ ↦ stage_phase m r' | err e ↦ fail e r' ]

    abbrev pub with_manifest : UpgradeManifest → Run → Run
    with_manifest m r = record r { engine = record r.engine { current_manifest = some m } }

    unfoldable pub run : UpgradeManifest → File → Run → Outcome
    unfolding set_state verify_phase
    run m file r =
        let r' = set_state validated (with_manifest m (set_state received r)) in
        elim (validate_manifest m) [ ok _ ↦ verify_phase m file r' | err e ↦ fail e r' ]
