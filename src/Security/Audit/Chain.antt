-- ===== src/Security/Audit/Chain.antt =====
-- What `AuditChain::append` keeps and `verify` accepts.
use cc_r_device_agent.Prelude.{
  ℕ, String, ◌≡◌, refl, Bool, true, ◌&&◌, List, [], ◌∷◌, ◌++◌, arith, str_eq, eq_iff, ap, sym, ◌∙◌,
}
use cc_r_device_agent.Security.Audit.{
  AuditEvent, AuditChain, last_hash, hash_input, hex_encode, calculate_hash, sealed, append,
  verify_from, verify,
}

-- The hash that the next event must name: that of the last event, or `start`.
abbrev pub end_hash : String → List AuditEvent → String
end_hash start [] = start
end_hash start (e ∷ es) = end_hash e.hash es

pub end_hash-last_hash :
    (e : AuditEvent) (es : List AuditEvent) → last_hash (e ∷ es) ≡ end_hash e.hash es
end_hash-last_hash e [] = refl
end_hash-last_hash e (x ∷ es) = end_hash-last_hash x es

str_eq_self : (s : String) → str_eq s s ≡ true
str_eq_self s = (eq_iff s s).1 refl

&&-true : (b : Bool) → (b && true) ≡ b
&&-true b = ground arith

module _ (sha256 : String → List ℕ) where
  pub verify_from-append :
      (start : String) (xs ys : List AuditEvent)
      → verify_from sha256 start (xs ++ ys)
        ≡ (verify_from sha256 start xs && verify_from sha256 (end_hash start xs) ys)
  unfolding verify_from
  verify_from-append start [] ys = refl
  verify_from-append start (x ∷ xs) ys = ground (arith, verify_from-append x.hash xs ys)

  hash_input-sealed :
      (e : AuditEvent) (prev p : String) → hash_input (sealed sha256 e prev) p ≡ hash_input e p
  unfolding hash_input sealed
  hash_input-sealed e prev p = refl

  hash_input-linked :
      (e : AuditEvent) (prev p : String)
      → hash_input (record e { prev_hash = prev }) p ≡ hash_input e p
  unfolding hash_input
  hash_input-linked e prev p = refl

  sealed-prev_hash : (e : AuditEvent) (prev : String) → (sealed sha256 e prev).prev_hash ≡ prev
  unfolding sealed
  sealed-prev_hash e prev = refl

  sealed-hash :
      (e : AuditEvent) (prev : String)
      → (sealed sha256 e prev).hash ≡ calculate_hash sha256 (sealed sha256 e prev) prev
  unfolding sealed calculate_hash
  sealed-hash e prev =
      ap (λ t. hex_encode (sha256 t))
        (hash_input-linked e prev prev ∙ sym (hash_input-sealed e prev prev))

  sealed-verify_from :
      (e : AuditEvent) (prev : String) → verify_from sha256 prev (sealed sha256 e prev ∷ []) ≡ true
  unfolding verify_from
  sealed-verify_from e prev = simp (sealed-prev_hash, str_eq_self, ← sealed-hash)

  end_hash-eq : (es : List AuditEvent) → last_hash es ≡ end_hash "" es
  end_hash-eq [] = refl
  end_hash-eq (e ∷ es) = end_hash-last_hash e es

  -- A chain behind which an event is appended verifies exactly if it verified before.
  pub verify-append :
      (c : AuditChain) (e : AuditEvent) → verify sha256 (append sha256 c e) ≡ verify sha256 c
  unfolding verify append
  verify-append c e =
      rw (end_hash-eq c.events, verify_from-append "" c.events, sealed-verify_from) (&&-true _)

  unfoldable pub append_all : AuditChain → List AuditEvent → AuditChain
  append_all c [] = c
  append_all c (e ∷ es) = append_all (append sha256 c e) es

  -- A chain that only `append` has built verifies.
  pub verify-append_all :
      (c : AuditChain) (es : List AuditEvent) → verify sha256 (append_all c es) ≡ verify sha256 c
  unfolding append_all
  verify-append_all c [] = refl
  verify-append_all c (e ∷ es) = verify-append_all (append sha256 c e) es ∙ verify-append c e
