-- ===== src/Security/Replay/Traces.antt =====
-- Sequences of calls of `ReplayGuard::check`, each with the clock it reads.
use cc_r_device_agent.Prelude.{
  ℕ, ◌+◌, ◌≤◌, String, ◌≡◌, refl, ◌∙◌, ap, ◌⊎◌, inr, List, [], ◌∷◌, some, arith, All, ok, err,
}
use native.Mathlib.Decide.{dec_le}
use cc_r_device_agent.Prelude.Dict.{get}
use cc_r_device_agent.Security.Types.{replay_detected, timestamp_out_of_window, Action, Principal}
use cc_r_device_agent.Security.Replay.{ReplayKey, replay_key_eq, ReplayGuard, key_of, check}
use cc_r_device_agent.Security.Replay.Laws.{
  check-skew, check_outside, get-check_known, get-check_ok, check_known,
}

pub record Call : Type 0 where
  pub principal : Principal
  pub action : Action
  pub timestamp : ℕ
  pub nonce : String
  pub now : ℕ

abbrev pub run_check : ReplayGuard → Call → ReplayGuard
run_check g c = (check g c.principal c.action c.timestamp c.nonce c.now).0

unfoldable pub run : ReplayGuard → List Call → ReplayGuard
run g [] = g
run g (c ∷ cs) = run (run_check g c) cs

run-skew : (g : ReplayGuard) (cs : List Call) → (run g cs).allowed_skew ≡ g.allowed_skew
unfolding run
run-skew g [] = refl
run-skew g (c ∷ cs) =
    run-skew (run_check g c) cs ∙ check-skew g c.principal c.action c.timestamp c.nonce c.now

get-run :
    (g : ReplayGuard) (cs : List Call) (k : ReplayKey) (t last : ℕ)
    → get k g.seen ≡ some t
    → last ≤ t + g.allowed_skew
    → All (λ c. c.now ≤ last) cs
    → get k (run g cs).seen ≡ some t
unfolding run
get-run g [] k t last h q hs = h
get-run g (c ∷ cs) k t last h q hs =
    let skew = check-skew g c.principal c.action c.timestamp c.nonce c.now in
    get-run (run_check g c) cs k t last
      (get-check_known g c.principal c.action c.timestamp c.nonce c.now k t h (omega arith))
      (omega (arith, skew)) hs.1

-- No replay: once the guard accepts a request, it refuses the same principal, action, timestamp
-- and nonce ever after, whatever calls stand between, as long as no call between reads a clock
-- later than the one that the repeated request is checked at.
pub run-no_replay :
    (g : ReplayGuard) (p : Principal) (a : Action) (t : ℕ) (n : String) (now later : ℕ)
    (between : List Call)
    → (check g p a t n now).1 ≡ ok tt
    → All (λ c. c.now ≤ later) between
    → let g' = run (check g p a t n now).0 between in
      ((check g' p a t n later).1 ≡ err replay_detected)
      ⊎ ((check g' p a t n later).1 ≡ err timestamp_out_of_window)
run-no_replay g p a t n now later between h hs =
    let g₁ = (check g p a t n now).0 in
    let skew = check-skew g p a t n now in
    let skew' = run-skew g₁ between in
    elim (dec_le later (t + g.allowed_skew)) [
      | yes q ↦
          check_known (run g₁ between) p a t t n later
            (get-run g₁ between (key_of p a n) t later (get-check_ok g p a t n now h).0
              (omega arith) hs)
            (omega arith)
      | no q ↦ inr (ap (λ r. r.1) (check_outside (run g₁ between) p a t n later (λ w. omega arith)))
    ]
