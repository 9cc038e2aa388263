-- ===== src/Store/Nonces.antt =====
-- crates/agent-store/src/lib.rs, the table replay_nonces: the nonces that are kept over a restart.
use cc_r_device_agent.Prelude.{
  ℕ, ◌≡◌, refl, ap, inl, inr, Bool, true, false, ◌&&◌, List, [], ◌∷◌, arith, leb, if◌then◌else◌,
  Bool-cases, some, is_some,
}
use cc_r_device_agent.Prelude.Dict
use cc_r_device_agent.Prelude.Dict.{
  Dict, contains_key, insert, get, retain, get-insert, get-insert_self,
}
use cc_r_device_agent.Security.Replay.{ReplayKey, replay_key_eq}
use cc_r_device_agent.Store.AuditLog.{system_time_to_unix_ms}

-- The primary key is (tenant_id, device_id, principal, action, nonce); the value is timestamp_unix_ms.
abbrev pub Nonces : Type 0
Nonces = Dict ReplayKey ℕ

-- `INSERT OR IGNORE`, and whether a row was inserted.
unfoldable pub try_insert_replay_nonce : ReplayKey → ℕ → Nonces → Nonces × Bool
try_insert_replay_nonce key timestamp t =
    if contains_key key t
    then (t, false)
    else (insert key (system_time_to_unix_ms timestamp) t, true)

-- `DELETE .. WHERE timestamp_unix_ms < ?1`.
unfoldable pub prune_replay_nonces : ℕ → Nonces → Nonces
prune_replay_nonces older_than t = retain (λ ms. leb (system_time_to_unix_ms older_than) ms) t

pub data NonceOp : Type 0 where
  try_insert : ReplayKey → ℕ → NonceOp
  prune : ℕ → NonceOp

unfoldable pub step : NonceOp → Nonces → Nonces
unfolding try_insert_replay_nonce prune_replay_nonces
step (try_insert key timestamp) t = (try_insert_replay_nonce key timestamp t).0
step (prune older_than) t = prune_replay_nonces older_than t

unfoldable pub run : List NonceOp → Nonces → Nonces
run [] t = t
run (o ∷ os) t = run os (step o t)

-- No prune of the list reaches a time in milliseconds.
abbrev pub is_spared : ℕ → List NonceOp → Bool
is_spared ms [] = true
is_spared ms (try_insert key timestamp ∷ os) = is_spared ms os
is_spared ms (prune older_than ∷ os) = leb (system_time_to_unix_ms older_than) ms && is_spared ms os

try_insert_keeps :
    (k : ReplayKey) (at : ℕ) (t : Nonces) (key : ReplayKey) (ms : ℕ)
    → get key t ≡ some ms
    → get key (try_insert_replay_nonce k at t).0 ≡ some ms
unfolding try_insert_replay_nonce
try_insert_keeps k at t key ms g =
    ground (arith, get-insert k key (system_time_to_unix_ms at) t, replay_key_eq.same_iff k key)

step_keeps :
    (o : NonceOp) (os : List NonceOp) (t : Nonces) (key : ReplayKey) (ms : ℕ)
    → get key t ≡ some ms
    → is_spared ms (o ∷ os) ≡ true
    → get key (step o t) ≡ some ms
unfolding step
step_keeps (try_insert k at) os t key ms g h = try_insert_keeps k at t key ms g
step_keeps (prune older_than) os t key ms g h =
    Dict.get-retain_keep (λ m. leb (system_time_to_unix_ms older_than) m) key ms t g (ground arith)

run_keeps :
    (os : List NonceOp) (t : Nonces) (key : ReplayKey) (ms : ℕ)
    → get key t ≡ some ms
    → is_spared ms os ≡ true
    → get key (run os t) ≡ some ms
unfolding run
run_keeps [] t key ms g h = g
run_keeps (try_insert k at ∷ os) t key ms g h =
    run_keeps os _ key ms (step_keeps (try_insert k at) os t key ms g h) h
run_keeps (prune o ∷ os) t key ms g h =
    run_keeps os _ key ms (step_keeps (prune o) os t key ms g h) (ground arith)

-- A nonce that was taken is refused ever after, whatever is tried and pruned in between, unless a
-- prune reaches its time.
pub nonce_once :
    (t : Nonces) (key : ReplayKey) (timestamp again : ℕ) (os : List NonceOp)
    → (try_insert_replay_nonce key timestamp t).1 ≡ true
    → is_spared (system_time_to_unix_ms timestamp) os ≡ true
    → let t' = run os (try_insert_replay_nonce key timestamp t).0 in
      try_insert_replay_nonce key again t' ≡ (t', false)
unfolding try_insert_replay_nonce
nonce_once t key timestamp again os taken spared = elim (Bool-cases (contains_key key t)) [
  | inl e ↦ let refused : false ≡ true = rw e at taken in cc
  | inr e ↦
      let ms = system_time_to_unix_ms timestamp in
      let there : get key (try_insert_replay_nonce key timestamp t).0 ≡ some ms =
        rw e (get-insert_self key ms t) in
      let still = run_keeps os (try_insert_replay_nonce key timestamp t).0 key ms there spared in
      rw (ap is_some still) refl
]
