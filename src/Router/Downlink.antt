-- ===== src/Router/Downlink.antt =====
-- Delivering a downlink message: which subscribers are left, alone and beside another delivery.
use mathlib.Core.List.{Perm, append_assoc}
use mathlib.Core.List.Perm
use cc_r_device_agent.Prelude.{
  ℕ, suc, String, ◌≡◌, refl, sym, inl, inr, Bool, true, false, none, some, List, [], ◌∷◌, ◌++◌,
  arith, Bool-cases, Option-cases, length, length-append, string_eq,
}
use cc_r_device_agent.Prelude.Dict
use cc_r_device_agent.Prelude.Sort.{keep}
use cc_r_device_agent.Router.{
  Registry, senders_of, second, last_first, swap_remove, dead_from, remove_dead, clean_up, deliver,
}

module _ {Sender : Type 0} where
  second-perm : (x : Sender) (xs : List Sender) → Perm (second x xs) (x ∷ xs)
  second-perm x [] = Perm.refl _
  second-perm x (y ∷ ys) = Perm.swap x y ys

  last_first-perm : (xs : List Sender) → Perm (last_first xs) xs
  last_first-perm [] = Perm.refl _
  last_first-perm (x ∷ xs) =
      Perm.trans (second-perm x (last_first xs)) (Perm.cons x (last_first-perm xs))

  swap_remove-append :
      (pre : List Sender) (x : Sender) (s : List Sender)
      → swap_remove (length pre) (pre ++ x ∷ s) ≡ some (pre ++ last_first s)
  unfolding swap_remove
  swap_remove-append [] x s = refl
  swap_remove-append (p ∷ pre) x s = rw (swap_remove-append pre x s) refl

  -- What the clean-up leaves of a registry.
  abbrev Settles : String → List ℕ → List Sender → Registry Sender → Type 0
  Settles app_id dead s registry =
      (left : Registry Sender) × (clean_up app_id dead registry ≡ some left)
      × (senders_of app_id left ≡ s)
      × ((other : String)
          → string_eq.same app_id other ≡ false
          → Dict.get other left ≡ Dict.get other registry)

  clean_up-Settles :
      (app_id : String) (dead : List ℕ) (v s : List Sender) (registry : Registry Sender)
      → Dict.get app_id registry ≡ some v
      → remove_dead dead v ≡ some s
      → Settles app_id dead s registry
  unfolding clean_up remove_dead
  clean_up-Settles app_id [] v s registry there left =
      (registry, refl, rw there (cc), λ other ne. refl)
  clean_up-Settles app_id (i ∷ dead) v s registry there left = (
    Dict.insert app_id s registry,
    rw (there, clean_up) (rw (left, clean_up) refl),
    rw (Dict.get-insert_self app_id s registry) refl,
    λ other ne. Dict.get-insert_ne app_id other s registry ne,
  )

  module _ (alive : Sender → Bool) where
    -- The positions of a tail, removed from the last on, leave the living ones of the tail.
    sweep :
        (pre suf : List Sender)
        → (s : List Sender) × (remove_dead (dead_from alive (length pre) suf) (pre ++ suf)
            ≡ some (pre ++ s))
          × Perm s (keep alive suf)
    unfolding remove_dead dead_from keep
    sweep pre [] = ([], refl, Perm.refl _)
    sweep pre (x ∷ xs) =
        let (s, left, same) = sweep (pre ++ x ∷ []) xs in
        let at : length (pre ++ x ∷ []) ≡ suc (length pre) = rw length-append (omega arith) in
        let left' : remove_dead (dead_from alive (suc (length pre)) xs) (pre ++ x ∷ xs)
            ≡ some (pre ++ x ∷ s) =
          rw (sym at) (rw (append_assoc pre (x ∷ []) xs, append_assoc pre (x ∷ []) s) at left) in
        elim (Bool-cases (alive x)) [
          | inl e ↦ (x ∷ s, rw e left', rw e (Perm.cons x same))
          | inr e ↦ (
            last_first s,
            rw e (rw left' (swap_remove-append pre x s)),
            rw e (Perm.trans (last_first-perm s) same),
          )
        ]

    -- Delivering alone never panics, sends to every subscriber, and leaves the living ones subscribed.
    pub deliver_alive :
        (app_id : String) (registry : Registry Sender)
        → (left : Registry Sender) × (deliver alive app_id registry
            ≡ (some left, senders_of app_id registry))
          × Perm (senders_of app_id left) (keep alive (senders_of app_id registry))
          × ((other : String)
              → string_eq.same app_id other ≡ false
              → Dict.get other left ≡ Dict.get other registry)
    unfolding deliver dead_from keep
    deliver_alive app_id registry = elim (Option-cases (Dict.get app_id registry)) [
      | inl e ↦ (registry, rw e refl, rw e (Perm.refl _), λ other ne. refl)
      | inr (v, e) ↦
          let (s, swept, same) = sweep [] v in
          let (left, cleaned, now, others) =
            clean_up-Settles app_id (dead_from alive 0 v) v s registry e swept in
          (left, rw e (rw cleaned refl), rw e (rw now same), others)
    ]

-- Two deliveries that both sent before either cleaned up: the second takes a living subscriber away.
pub deliver_stale :
    {Sender : Type 0} (alive : Sender → Bool) (app_id : String) (x y : Sender)
    → alive x ≡ false
    → alive y ≡ true
    → let dead = dead_from alive 0 (x ∷ y ∷ []) in
      let subscribed : List Sender → Registry Sender = λ senders. (app_id, senders) ∷ [] in
      (clean_up app_id dead (subscribed (x ∷ y ∷ [])) ≡ some (subscribed (y ∷ [])))
      × (clean_up app_id dead (subscribed (y ∷ [])) ≡ some (subscribed []))
      × (clean_up app_id dead (subscribed []) ≡ none)
unfolding dead_from clean_up remove_dead swap_remove Dict.get Dict.insert
deliver_stale alive app_id x y dead living =
    let found = Dict.same_self {K = String} app_id in
    rw (dead, living)
      (
        rw (found, clean_up, Dict.get) (rw found refl),
        rw (found, clean_up, Dict.get) (rw found refl),
        rw (found, clean_up, Dict.get) refl,
      )
