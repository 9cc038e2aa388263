-- ===== src/Config/Versions.antt =====
-- The versions of the events of src/config_manager.rs, and of the rows that it stores.
use cc_r_device_agent.Prelude.{
  ℕ, ◌+◌, ◌≤◌, ◌<◌, ◌≡◌, refl, String, Bool, true, ◌||◌, Option, none, some, List, [], ◌∷◌, all,
  leb, arith, inl, inr, Bool-cases, Option-cases, string_eq, is_some,
}
use cc_r_device_agent.Prelude.Dict
use cc_r_device_agent.Config.Table.{Table}
use cc_r_device_agent.Config.Manager.{
  ConfigScope, scope_eq, ConfigChangeEvent, ConfigManager, Inner, inner_set, inner_delete, set,
  delete, get,
}

-- The calls that write.
pub data Op : Type 0 where
  set_to : ConfigScope → String → String → Op
  deleted : ConfigScope → String → Op

-- All rows have at most this version.
abbrev pub is_below : ℕ → Table → Bool
is_below n t = all (λ r. leb r.version n) t

-- The versions grow strictly from event to event, from one number to another.
unfoldable pub IsRising : ℕ → List ConfigChangeEvent → ℕ → Type 0
IsRising v [] w = v ≤ w
IsRising v (e ∷ es) w = (v < e.version) × IsRising e.version es w

IsRising-weaken :
    (u v w : ℕ) (es : List ConfigChangeEvent) → u ≤ v → IsRising v es w → IsRising u es w
unfolding IsRising
IsRising-weaken u v w [] h r = omega arith
IsRising-weaken u v w (e ∷ es) h r = (omega (arith, r.0), r.1)

abbrev pub cons_event : Option ConfigChangeEvent → List ConfigChangeEvent → List ConfigChangeEvent
cons_event none es = es
cons_event (some e) es = e ∷ es

pub inner_delete-version :
    (s : ConfigScope) (k : String) (i : Inner)
    → (inner_delete s k i).0.global_version ≡ i.global_version + 1
unfolding inner_delete
inner_delete-version s k i = elim (Option-cases (Dict.get s i.scopes)) [
  | inl e ↦ rw (e, inner_delete)
  | inr (x, e) ↦ rw (e, inner_delete)
]

module _ (to_json : String → String) (from_json : String → Option String) where
  -- A manager whose rows are not ahead of its version, as one with an empty table has.
  abbrev pub is_ahead : ConfigManager → Bool
  is_ahead m = elim m.store [ none ↦ true | some t ↦ is_below m.inner.global_version t ]

  abbrev pub step : Op → ConfigManager → ConfigManager × Option ConfigChangeEvent
  step (set_to s k v) m = let (m', e) = set to_json from_json s k v m in (m', some e)
  step (deleted s k) m = delete to_json from_json s k m

  -- The manager and the events, in their order.
  unfoldable pub run : List Op → ConfigManager → ConfigManager × List ConfigChangeEvent
  run [] m = (m, [])
  run (o ∷ os) m = let (m', e) = step o m in let (m'', es) = run os m' in (m'', cons_event e es)

  pub step-version :
      (o : Op) (m : ConfigManager)
      → ((step o m).0.inner.global_version ≡ m.inner.global_version + 1)
        × ((e : ConfigChangeEvent) → (step o m).1 ≡ some e → e.version ≡ m.inner.global_version + 1)
  unfolding set delete inner_set
  step-version (set_to s k v) m = (refl, λ e h. ground arith)
  step-version (deleted s k) m =
      let v = inner_delete-version s k m.inner in
      elim (Bool-cases ((inner_delete s k m.inner).1 || is_some (get to_json from_json s k m))) [
        | inl b ↦ rw b (v, λ e h. ground arith)
        | inr b ↦ rw b (v, λ e h. ground arith)
      ]

  -- Over any sequence of writes the events have strictly growing versions, all of them above the
  -- version at the start and none above the version at the end.
  pub run-IsRising :
      (os : List Op) (m : ConfigManager)
      → IsRising m.inner.global_version (run os m).1 (run os m).0.inner.global_version
  unfolding run IsRising
  run-IsRising [] m = omega arith
  run-IsRising (o ∷ os) m =
      let (v, w) = step-version o m in
      let rest = run-IsRising os (step o m).0 in
      elim (Option-cases (step o m).1) [
        | inl e ↦ rw (e, cons_event) (IsRising-weaken _ _ _ _ (omega (arith, v)) rest)
        | inr (x, e) ↦
            rw (e, cons_event)
              (omega (arith, w x e), IsRising-weaken _ _ _ _ (omega (arith, v, w x e)) rest)
      ]
