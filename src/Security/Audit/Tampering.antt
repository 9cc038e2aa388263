-- ===== src/Security/Audit/Tampering.antt =====
-- What `AuditChain::verify` detects of a change to stored events, and what it does not.
use cc_r_device_agent.Prelude.{
  ℕ, String, ◌≡◌, refl, ◌≢◌, Bool, true, false, ◌&&◌, List, [], ◌∷◌, ◌++◌, arith, eq_iff, map, ap,
  sym, ◌∙◌,
}
use cc_r_device_agent.Security.Audit.{
  AuditEvent, AuditChain, hash_input, hex_encode, calculate_hash, verify_from, verify,
}
use cc_r_device_agent.Security.Audit.Chain.{end_hash, verify_from-append}

-- The same event with another principal.
abbrev pub blame : (AuditEvent → String) → AuditEvent → AuditEvent
blame f e = record e { principal = f e }

hash_input-blame :
    (f : AuditEvent → String) (e : AuditEvent) (p : String)
    → hash_input (blame f e) p ≡ hash_input e p
unfolding hash_input
hash_input-blame f e p = refl

and_right : (a b : Bool) → (a && b) ≡ true → b ≡ true
and_right a b h = ground arith

and_false : (a b : Bool) → b ≡ false → (a && b) ≡ false
and_false a b h = ground arith

module _ (sha256 : String → List ℕ) where
  calculate_hash-blame :
      (f : AuditEvent → String) (e : AuditEvent) (p : String)
      → calculate_hash sha256 (blame f e) p ≡ calculate_hash sha256 e p
  unfolding calculate_hash
  calculate_hash-blame f e p = ap (λ t. hex_encode (sha256 t)) (hash_input-blame f e p)

  verify_from-blame :
      (f : AuditEvent → String) (start : String) (es : List AuditEvent)
      → verify_from sha256 start (map (blame f) es) ≡ verify_from sha256 start es
  unfolding verify_from
  verify_from-blame f start [] = refl
  verify_from-blame f start (e ∷ es) =
      rw (calculate_hash-blame f e e.prev_hash) (rw (verify_from-blame f e.hash es) refl)

  -- The recorded principal is not protected: whatever principals are written into the events of a
  -- chain, `verify` answers as before.
  pub verify_ignores_principal :
      (f : AuditEvent → String) (c : AuditChain)
      → verify sha256 (record { events = map (blame f) c.events }) ≡ verify sha256 c
  unfolding verify
  verify_ignores_principal f c = verify_from-blame f "" c.events

  head-true :
      (start : String) (e : AuditEvent) (es : List AuditEvent)
      → verify_from sha256 start (e ∷ es) ≡ true
      → (e.prev_hash ≡ start) × (e.hash ≡ calculate_hash sha256 e e.prev_hash)
  unfolding verify_from
  head-true start e es h =
      ground (arith, eq_iff e.prev_hash start, eq_iff e.hash (calculate_hash sha256 e e.prev_hash))

  head-false :
      (start : String) (e : AuditEvent) (es : List AuditEvent)
      → e.hash ≢ calculate_hash sha256 e e.prev_hash
      → verify_from sha256 start (e ∷ es) ≡ false
  unfolding verify_from
  head-false start e es h = ground (arith, eq_iff e.hash (calculate_hash sha256 e e.prev_hash))

  -- In a chain that verifies, an event replaced by one with the same stored hash is detected if the
  -- two have different calculated hashes, so unless the digests of their texts collide.
  pub verify_detects_edit :
      (before after : List AuditEvent) (e e' : AuditEvent)
      → verify sha256 (record { events = before ++ e ∷ after }) ≡ true
      → e'.hash ≡ e.hash
      → calculate_hash sha256 e' e'.prev_hash ≢ calculate_hash sha256 e e.prev_hash
      → verify sha256 (record { events = before ++ e' ∷ after }) ≡ false
  unfolding verify
  verify_detects_edit before after e e' h same differ =
      let e_ok =
        head-true (end_hash "" before) e after
          (and_right _ _ (sym (verify_from-append sha256 "" before (e ∷ after)) ∙ h)) in
      rw (verify_from-append sha256 "" before (e' ∷ after)) (
        and_false _ _
          (head-false (end_hash "" before) e' after (λ p. differ (sym p ∙ same ∙ e_ok.1))))
