-- ===== src/Upgrade/Verified.antt =====
-- Which packages src/upgrade_engine.rs takes, and what becomes of the others.
use cc_r_device_agent.Prelude.{
  ℕ, ◌≡◌, ◌≢◌, refl, ap, ◌∙◌, ◌↔◌, ◌⊎◌, inl, inr, true, none, some, List, ok, err, eq_iff,
  Bool-cases, Option-cases, arith,
}
use cc_r_device_agent.Security.Center.{inline_key_ref, verify_ed25519_signature, verify_with}
use cc_r_device_agent.Upgrade.Package.{
  UpgradeManifest, File, Codecs, is_empty, verify_package, sha256_agrees, verify_signature,
}
use cc_r_device_agent.Upgrade.Engine.{UpgradeState, UpgradeStrategy, Run, set_state, persist_state}

-- A manifest without a signature and a key, or with a signature of the digest under its own key.
abbrev pub IsSigned : Codecs → UpgradeManifest → List ℕ → Type 0
IsSigned c m digest =
    ((m.signature_b64 ≡ "") × (m.public_key_b64 ≡ ""))
    ⊎ ((signature : List ℕ) × (key : List ℕ) × (m.signature_b64 ≢ "")
        × (m.public_key_b64 ≢ "")
        × (c.decode_base64 m.signature_b64 ≡ some signature)
        × (c.decode_base64 m.public_key_b64 ≡ some key)
        × (c.ed25519_verify key digest signature ≡ true))

IsSigned-of_ok :
    (c : Codecs) (m : UpgradeManifest) (digest : List ℕ)
    → verify_signature c m digest ≡ ok tt
    → IsSigned c m digest
unfolding verify_signature verify_ed25519_signature inline_key_ref verify_with
IsSigned-of_ok c m digest h =
    let sig = eq_iff m.signature_b64 "" in
    let pub_key = eq_iff m.public_key_b64 "" in
    elim (Bool-cases (is_empty m.signature_b64)) [
      | inl a ↦ elim (Bool-cases (is_empty m.public_key_b64)) [
        | inl b ↦ inl (sig.0 a, pub_key.0 b)
        | inr b ↦ absurd (ground arith)
      ]
      | inr a ↦ elim (Bool-cases (is_empty m.public_key_b64)) [
        | inl b ↦ absurd (ground arith)
        | inr b ↦ elim (Option-cases (c.decode_base64 m.signature_b64)) [
          | inl e ↦ absurd (ground arith)
          | inr (s, e) ↦ elim (Option-cases (c.decode_base64 m.public_key_b64)) [
            | inl g ↦ absurd (ground arith)
            | inr (k, g) ↦
                inr (s, k, λ z. cc (a, sig.1 z), λ z. cc (b, pub_key.1 z), e, g, ground arith)
          ]
        ]
      ]
    ]

ok_of_signed :
    (c : Codecs) (m : UpgradeManifest) (digest : List ℕ)
    → IsSigned c m digest
    → verify_signature c m digest ≡ ok tt
unfolding verify_signature verify_ed25519_signature inline_key_ref verify_with
ok_of_signed c m digest (inl (a, b)) =
    ground (arith, (eq_iff m.signature_b64 "").1 a, (eq_iff m.public_key_b64 "").1 b)
ok_of_signed c m digest (inr (s, k, a, b, e, g, v)) =
    ground (arith, eq_iff m.signature_b64 "", eq_iff m.public_key_b64 "")

-- The digest of the file is the manifest's, if that has one.
abbrev pub IsExpected : Codecs → UpgradeManifest → List ℕ → Type 0
IsExpected c m digest =
    (m.package_sha256 ≡ "") ⊎ (c.encode_lower digest ≡ c.to_ascii_lowercase m.package_sha256)

sha256_agrees_iff :
    (c : Codecs) (m : UpgradeManifest) (digest : List ℕ)
    → (sha256_agrees c m digest ≡ true) ↔ IsExpected c m digest
unfolding sha256_agrees
sha256_agrees_iff c m digest = ground (
  arith,
  eq_iff m.package_sha256 "",
  eq_iff (c.encode_lower digest) (c.to_ascii_lowercase m.package_sha256),
)

abbrev pub IsGood : Codecs → UpgradeManifest → File → Type 0
IsGood c m f =
    (bytes : List ℕ) × (f ≡ some (ok bytes))
    × IsExpected c m (c.sha256 bytes)
    × IsSigned c m (c.sha256 bytes)

IsGood-of_ok :
    (c : Codecs) (m : UpgradeManifest) (f : File) → verify_package c m f ≡ ok tt → IsGood c m f
unfolding verify_package
IsGood-of_ok c m none h = absurd (ground arith)
IsGood-of_ok c m (some (err x)) h = absurd (ground arith)
IsGood-of_ok c m (some (ok bytes)) h = elim (Bool-cases (sha256_agrees c m (c.sha256 bytes))) [
  | inl a ↦ (
    bytes,
    refl,
    (sha256_agrees_iff c m (c.sha256 bytes)).0 a,
    IsSigned-of_ok c m (c.sha256 bytes) (ground arith),
  )
  | inr a ↦ absurd (ground arith)
]

ok_of_good :
    (c : Codecs) (m : UpgradeManifest) (f : File) → IsGood c m f → verify_package c m f ≡ ok tt
unfolding verify_package
ok_of_good c m f (bytes, e, a, g) =
    ap (verify_package c m) e
    ∙ rw ((sha256_agrees_iff c m (c.sha256 bytes)).1 a) (ok_of_signed c m (c.sha256 bytes) g)

-- A package is taken exactly if it is there and can be read, its digest is that of the manifest, if
-- the manifest has one, and it is signed under the manifest's key, if that has a signature or a key.
pub verify_package-ok_iff :
    (c : Codecs) (m : UpgradeManifest) (f : File) → (verify_package c m f ≡ ok tt) ↔ IsGood c m f
verify_package-ok_iff c m f = (IsGood-of_ok c m f, ok_of_good c m f)

module _ (st : UpgradeStrategy) where
  pub state-set_state : (s : UpgradeState) (r : Run st) → (set_state st s r).engine.state ≡ s
  unfolding set_state persist_state
  state-set_state s r = elim (Option-cases r.engine.store) [
    | inl e ↦ rw (e, persist_state)
    | inr (t, e) ↦ elim (Option-cases r.engine.current_manifest) [
      | inl g ↦ rw (e, persist_state) (rw g)
      | inr (m, g) ↦ rw (e, persist_state) (rw g)
    ]
  ]
