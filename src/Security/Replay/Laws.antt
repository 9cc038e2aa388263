-- ===== src/Security/Replay/Laws.antt =====
-- One call of `ReplayGuard::check`: when it accepts, what it stores, what it forgets.
use cc_r_device_agent.Prelude.{
  ℕ, ◌+◌, ◌≤◌, String, ◌≡◌, ap, ◌⊎◌, inl, inr, ◌↔◌, true, ◌∙◌, none, some, arith, ok, err,
  Bool-cases,
}
use cc_r_device_agent.Prelude.Dict.{
  get, insert, get-insert, get-insert_self, get-retain_keep, get-retain-none, contains_key,
}
use cc_r_device_agent.Security.Types.{replay_detected, timestamp_out_of_window, Action, Principal}
use cc_r_device_agent.Security.Replay.{
  ReplayKey, replay_key_eq, ReplayGuard, key_of, retained, prune, admit, check,
}

-- The timestamp is at most the skew away from the clock.
abbrev pub IsWithin : ℕ → ℕ → ℕ → Type 0
IsWithin skew timestamp now = (timestamp ≤ now + skew) × (now ≤ timestamp + skew)

-- An entry survives pruning unless it is older than the skew.
pub retained_iff : (skew now t : ℕ) → (retained skew now t ≡ true) ↔ (now ≤ t + skew)
retained_iff skew now t = (λ h. ground arith, λ h. ground arith)

-- `check` on a timestamp within the window is `admit` on the pruned guard.
pub check_within :
    (g : ReplayGuard) (p : Principal) (a : Action) (t : ℕ) (n : String) (now : ℕ)
    → IsWithin g.allowed_skew t now
    → check g p a t n now ≡ admit (prune g now) (key_of p a n) t
unfolding check
check_within g p a t n now h = ground arith

pub check_outside :
    (g : ReplayGuard) (p : Principal) (a : Action) (t : ℕ) (n : String) (now : ℕ)
    → ¬ (IsWithin g.allowed_skew t now)
    → check g p a t n now ≡ (g, err timestamp_out_of_window)
unfolding check
check_outside g p a t n now h = ground arith

-- Pruning keeps an entry that is not older than the skew.
get-prune :
    (g : ReplayGuard) (k : ReplayKey) (t now : ℕ)
    → get k g.seen ≡ some t
    → now ≤ t + g.allowed_skew
    → get k (prune g now).seen ≡ some t
unfolding prune
get-prune g k t now h q = get-retain_keep _ k t g.seen h ((retained_iff g.allowed_skew now t).1 q)

get-prune-none :
    (g : ReplayGuard) (k : ReplayKey) (now : ℕ)
    → get k g.seen ≡ none
    → get k (prune g now).seen ≡ none
unfolding prune
get-prune-none g k now h = get-retain-none _ k g.seen h

get-admit_known :
    (g : ReplayGuard) (k j : ReplayKey) (t s : ℕ)
    → get k g.seen ≡ some t
    → get k (admit g j s).0.seen ≡ some t
unfolding admit
get-admit_known g k j t s h = elim (Bool-cases (replay_key_eq.same j k)) [
  | inl e ↦ rw ((replay_key_eq.same_iff j k).0 e) (rw h h)
  | inr e ↦ elim (Bool-cases (contains_key j g.seen)) [
    | inl c ↦ rw c h
    | inr c ↦ rw c (rw (get-insert, e) h)
  ]
]

admit-skew :
    (g : ReplayGuard) (k : ReplayKey) (t : ℕ) → (admit g k t).0.allowed_skew ≡ g.allowed_skew
unfolding admit
admit-skew g k t = ground arith

pub check-skew :
    (g : ReplayGuard) (p : Principal) (a : Action) (t : ℕ) (n : String) (now : ℕ)
    → (check g p a t n now).0.allowed_skew ≡ g.allowed_skew
unfolding check
check-skew g p a t n now = ground arith

-- A call whose clock is within the skew of a stored timestamp leaves that entry as it is.
pub get-check_known :
    (g : ReplayGuard) (p : Principal) (a : Action) (s : ℕ) (n : String) (now : ℕ) (k : ReplayKey)
    (t : ℕ)
    → get k g.seen ≡ some t
    → now ≤ t + g.allowed_skew
    → get k (check g p a s n now).0.seen ≡ some t
unfolding check
get-check_known g p a s n now k t h q =
    ground (arith, get-admit_known (prune g now) k (key_of p a n) t s (get-prune g k t now h q))

admit_new :
    (g : ReplayGuard) (k : ReplayKey) (t : ℕ)
    → get k g.seen ≡ none
    → admit g k t ≡ (record g { seen = insert k t g.seen }, ok tt)
unfolding admit
admit_new g k t h = rw h

admit_seen :
    (g : ReplayGuard) (k : ReplayKey) (t s : ℕ)
    → get k g.seen ≡ some s
    → admit g k t ≡ (g, err replay_detected)
unfolding admit
admit_seen g k t s h = rw h

-- `check` on every branch. A timestamp outside the window is refused and the guard is unchanged.
-- Within it the old entries go; then a key that is left is refused as a replay, and nothing is
-- stored, and a key that is not there is accepted and stored with its timestamp.
pub check_branches :
    (g : ReplayGuard) (p : Principal) (a : Action) (t : ℕ) (n : String) (now : ℕ)
    → (¬ (IsWithin g.allowed_skew t now) → check g p a t n now ≡ (g, err timestamp_out_of_window))
      × (IsWithin g.allowed_skew t now
          → (s : ℕ) → get (key_of p a n) (prune g now).seen ≡ some s
          → check g p a t n now ≡ (prune g now, err replay_detected))
      × (IsWithin g.allowed_skew t now
          → get (key_of p a n) (prune g now).seen ≡ none
          → check g p a t n now
            ≡ (record (prune g now) { seen = insert (key_of p a n) t (prune g now).seen }, ok tt))
check_branches g p a t n now = (
  check_outside g p a t n now,
  λ w s h. check_within g p a t n now w ∙ admit_seen (prune g now) (key_of p a n) t s h,
  λ w h. check_within g p a t n now w ∙ admit_new (prune g now) (key_of p a n) t h,
)

-- A request that was accepted is stored.
pub get-check_ok :
    (g : ReplayGuard) (p : Principal) (a : Action) (t : ℕ) (n : String) (now : ℕ)
    → (check g p a t n now).1 ≡ ok tt
    → (get (key_of p a n) (check g p a t n now).0.seen ≡ some t) × (now ≤ t + g.allowed_skew)
unfolding check admit
get-check_ok g p a t n now h = ground (arith, get-insert_self (key_of p a n) t (prune g now).seen)

-- A stored key with a timestamp that is still within the skew is never accepted again.
pub check_known :
    (g : ReplayGuard) (p : Principal) (a : Action) (t s : ℕ) (n : String) (now : ℕ)
    → get (key_of p a n) g.seen ≡ some t
    → now ≤ t + g.allowed_skew
    → ((check g p a s n now).1 ≡ err replay_detected)
      ⊎ ((check g p a s n now).1 ≡ err timestamp_out_of_window)
unfolding check
check_known g p a t s n now h q =
    ground (arith, admit_seen (prune g now) (key_of p a n) s t (get-prune g _ t now h q))

-- A request stamped with the clock itself and with a new key is accepted.
pub check_fresh :
    (g : ReplayGuard) (p : Principal) (a : Action) (now : ℕ) (n : String)
    → get (key_of p a n) g.seen ≡ none
    → (check g p a now n now).1 ≡ ok tt
check_fresh g p a now n h =
    ap (λ r. r.1)
      ((check_branches g p a now n now).2 (omega arith) (get-prune-none g (key_of p a n) now h))
