-- ===== src/Alerts/Times.antt =====
-- The seconds at which a rule has fired, as the history has them.
use cc_r_device_agent.Prelude.{
  ℕ, ◌+◌, ◌≤◌, String, ◌≡◌, refl, ap, inl, inr, Option, none, some, List, [], ◌∷◌, ◌++◌, arith,
  str_eq, if◌then◌else◌, Bool-cases,
}
use cc_r_device_agent.Alerts.Rules.{Floats, Alert}
use cc_r_device_agent.Alerts.Engine.{timestamp, drop_first, resolve_first}

-- The times are a number of seconds apart, and the last of them is at most the one remembered.
abbrev pub IsSpaced : ℕ → List ℕ → Option ℕ → Type 0
IsSpaced cd [] last = Unit
IsSpaced cd (t ∷ []) none = ⊥
IsSpaced cd (t ∷ []) (some l) = t ≤ l
IsSpaced cd (t ∷ u ∷ us) last = (t + cd ≤ u) × IsSpaced cd (u ∷ us) last

pub IsSpaced-snoc :
    (cd : ℕ) (ts : List ℕ) (last : Option ℕ) (now : ℕ)
    → IsSpaced cd ts last
    → ((l : ℕ) → last ≡ some l → l + cd ≤ now)
    → IsSpaced cd (ts ++ now ∷ []) (some now)
IsSpaced-snoc cd [] last now h gap = omega arith
IsSpaced-snoc cd (t ∷ []) none now h gap = absurd h
IsSpaced-snoc cd (t ∷ []) (some l) now h gap = (omega (arith, gap l refl), omega arith)
IsSpaced-snoc cd (t ∷ u ∷ us) last now (a, h) gap = (a, IsSpaced-snoc cd (u ∷ us) last now h gap)

pub IsSpaced-tail :
    (cd t : ℕ) (ts : List ℕ) (last : Option ℕ) → IsSpaced cd (t ∷ ts) last → IsSpaced cd ts last
IsSpaced-tail cd t [] last h = tt
IsSpaced-tail cd t (u ∷ us) last (_, h) = h

module _ (fl : Floats) (id : String) where
  -- The seconds at which the alerts of a rule were fired.
  abbrev pub times : List (Alert fl) → List ℕ
  times [] = []
  times (a ∷ rest) =
      let later = times rest in if str_eq a.rule_id id then timestamp a.fired_at ∷ later else later

  pub times-append : (xs ys : List (Alert fl)) → times (xs ++ ys) ≡ times xs ++ times ys
  times-append [] ys = refl
  times-append (a ∷ xs) ys = elim (Bool-cases (str_eq a.rule_id id)) [
    | inl e ↦ rw e (ap (λ z. timestamp a.fired_at ∷ z) (times-append xs ys))
    | inr e ↦ rw e (times-append xs ys)
  ]

  pub IsSpaced-drop_first :
      (cd : ℕ) (xs : List (Alert fl)) (last : Option ℕ)
      → IsSpaced cd (times xs) last
      → IsSpaced cd (times (drop_first fl xs)) last
  IsSpaced-drop_first cd [] last h = h
  IsSpaced-drop_first cd (a ∷ xs) last h = elim (Bool-cases (str_eq a.rule_id id)) [
    | inl e ↦ IsSpaced-tail cd (timestamp a.fired_at) (times xs) last (rw e at h)
    | inr e ↦ rw e at h
  ]

  pub times-resolve_first :
      (alert_id : String) (at : ℕ) (xs : List (Alert fl))
      → times (resolve_first fl alert_id at xs) ≡ times xs
  times-resolve_first alert_id at [] = refl
  times-resolve_first alert_id at (a ∷ xs) = elim (Bool-cases (str_eq a.id alert_id)) [
    | inl e ↦ rw e refl
    | inr e ↦ rw e (rw (times-resolve_first alert_id at xs) refl)
  ]
