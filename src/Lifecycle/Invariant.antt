-- ===== src/Lifecycle/Invariant.antt =====
-- What holds of the table of applications between two commands, and that an entry put into it or
-- taken from it keeps it. The operations are in `Lifecycle.Safety`.
use cc_r_device_agent.Prelude.{
  ℕ, String, ◌≡◌, sym, ◌∙◌, ap, ◌⊎◌, inl, inr, Bool, true, false, some, arith, str_eq, eq_iff,
  string_eq, Bool-cases,
}
use cc_r_device_agent.Prelude.Dict
use cc_r_device_agent.Prelude.Dict.{get-insert, get-insert_self, get-insert_ne, get-remove}
use cc_r_device_agent.Lifecycle.Platform.{Platform}
use cc_r_device_agent.Lifecycle.Apps.{
  AppState, registered, installed, starting, running, stopping, stopped, AppInstance, Apps,
}

-- The states that an entry of the table can be in. (`Installing`, `Failed`, `Uninstalling` and
-- `Uninstalled` are never those of an entry between two commands.)
abbrev pub is_reached : AppState → Bool
is_reached registered = true
is_reached installed = true
is_reached starting = true
is_reached running = true
is_reached stopping = true
is_reached stopped = true
is_reached _ = false

module _ (pal : Platform) where
  open pal use {World, live}

  -- Entries stand under their own identifier, in a reached state; an entry with a process is running
  -- and its process is live; no process belongs to two applications.
  pub record IsConsistent (apps : Apps) (w : World) : Type 0 where
    pub keyed : (id : String) (i : AppInstance) → Dict.get id apps ≡ some i → i.app_id ≡ id
    pub reached :
        (id : String) (i : AppInstance) → Dict.get id apps ≡ some i → is_reached i.state ≡ true
    pub tracked :
        (id : String) (i : AppInstance) (p : ℕ)
        → Dict.get id apps ≡ some i
        → i.pid ≡ some p
        → (i.state ≡ running) × (live w p ≡ true)
    pub distinct :
        (id j : String) (i k : AppInstance) (p : ℕ)
        → Dict.get id apps ≡ some i
        → Dict.get j apps ≡ some k
        → i.pid ≡ some p
        → k.pid ≡ some p
        → id ≡ j

  -- A new entry fits under `id`: its process is live, and was not live before or was this entry's.
  pub record Fits (apps : Apps) (w w' : World) (id : String) (i : AppInstance) : Type 0 where
    pub own_key : i.app_id ≡ id
    pub own_state : is_reached i.state ≡ true
    pub own_pid : (p : ℕ) → i.pid ≡ some p → (i.state ≡ running) × (live w' p ≡ true)
    pub own_fresh :
        (p : ℕ)
        → i.pid ≡ some p
        → (live w p ≡ false) ⊎ ((o : AppInstance) × (Dict.get id apps ≡ some o) × (o.pid ≡ some p))

  -- The processes of the other entries are still live.
  abbrev pub OthersLive : Apps → World → String → Type 0
  OthersLive apps w' id =
      (j : String) (k : AppInstance) (p : ℕ)
      → str_eq id j ≡ false
      → Dict.get j apps ≡ some k
      → k.pid ≡ some p
      → live w' p ≡ true

  -- Where an entry of the new table comes from.
  pub found_in :
      (apps : Apps) (id j : String) (i k : AppInstance)
      → Dict.get j (Dict.insert id i apps) ≡ some k
      → ((id ≡ j) × (k ≡ i)) ⊎ ((str_eq id j ≡ false) × (Dict.get j apps ≡ some k))
  found_in apps id j i k h = elim (Bool-cases (str_eq id j)) [
    | inl e ↦ inl ((eq_iff id j).0 e, ground (arith, get-insert id j i apps))
    | inr e ↦ inr (e, sym (get-insert_ne id j i apps e) ∙ h)
  ]

  not_shared :
      (apps : Apps) (w w' : World) (id j : String) (i k : AppInstance) (p : ℕ)
      → IsConsistent apps w
      → Fits apps w w' id i
      → str_eq id j ≡ false
      → Dict.get j apps ≡ some k
      → i.pid ≡ some p
      → k.pid ≡ some p
      → ⊥
  not_shared apps w w' id j i k p h f ne g hi hk = elim (f.own_fresh p hi) [
    | inl fresh ↦ cc (fresh, (h.tracked j k p g hk).1)
    | inr (o, go, ho) ↦ cc (ne, (eq_iff id j).1 (h.distinct id j o k p go g ho hk))
  ]

  pub insert-IsConsistent :
      (apps : Apps) (w w' : World) (id : String) (i : AppInstance)
      → IsConsistent apps w
      → Fits apps w w' id i
      → OthersLive apps w' id
      → IsConsistent (Dict.insert id i apps) w'
  insert-IsConsistent apps w w' id i h f others = record {
    keyed = λ j k g. elim (found_in apps id j i k g) [
      | inl (e, q) ↦ rw q (f.own_key ∙ e)
      | inr (_, q) ↦ h.keyed j k q
    ];
    reached = λ j k g. elim (found_in apps id j i k g) [
      | inl (_, q) ↦ rw q f.own_state
      | inr (_, q) ↦ h.reached j k q
    ];
    tracked = λ j k p g e. elim (found_in apps id j i k g) [
      | inl (_, q) ↦ rw q (f.own_pid p (ap (λ x. x.pid) (sym q) ∙ e))
      | inr (ne, q) ↦ ((h.tracked j k p q e).0, others j k p ne q e)
    ];
    distinct = λ a b x y p ga gb ex ey. elim (found_in apps id a i x ga) [
      | inl (ea, qa) ↦ elim (found_in apps id b i y gb) [
        | inl (eb, qb) ↦ sym ea ∙ eb
        | inr (nb, qb) ↦
            absurd (not_shared apps w w' id b i y p h f nb qb (ap (λ z. z.pid) (sym qa) ∙ ex) ey)
      ]
      | inr (na, qa) ↦ elim (found_in apps id b i y gb) [
        | inl (eb, qb) ↦
            absurd (not_shared apps w w' id a i x p h f na qa (ap (λ z. z.pid) (sym qb) ∙ ey) ex)
        | inr (nb, qb) ↦ h.distinct a b x y p qa qb ex ey
      ]
    ];
  }

  left_in :
      (apps : Apps) (id j : String) (k : AppInstance)
      → Dict.get j (Dict.remove id apps) ≡ some k
      → (str_eq id j ≡ false) × (Dict.get j apps ≡ some k)
  left_in apps id j k h = elim (Bool-cases (str_eq id j)) [
    | inl e ↦ absurd (ground (arith, get-remove id j apps))
    | inr e ↦ (e, ground (arith, get-remove id j apps))
  ]

  pub remove-IsConsistent :
      (apps : Apps) (w w' : World) (id : String)
      → IsConsistent apps w
      → OthersLive apps w' id
      → IsConsistent (Dict.remove id apps) w'
  remove-IsConsistent apps w w' id h others = record {
    keyed = λ j k g. h.keyed j k (left_in apps id j k g).1;
    reached = λ j k g. h.reached j k (left_in apps id j k g).1;
    tracked = λ j k p g e.
        let (ne, q) = left_in apps id j k g in ((h.tracked j k p q e).0, others j k p ne q e);
    distinct = λ a b x y p ga gb ex ey.
        h.distinct a b x y p (left_in apps id a x ga).1 (left_in apps id b y gb).1 ex ey;
  }
