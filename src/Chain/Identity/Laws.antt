-- ===== src/Chain/Identity/Laws.antt =====
-- Which identity a request gets.
use cc_r_device_agent.Prelude.{
  String, ◌≡◌, sym, ap, ◌∙◌, inl, inr, Option, none, some, List, [], ◌∷◌, arith, Option-cases,
  eq_iff,
}
use cc_r_device_agent.Security.Types.{admin, mtls, session_token, anonymous}
use cc_r_device_agent.Chain.Identity.{
  CertInfo, PrincipalHeader, principal_of_cert, principal_of_header, anonymous_principal,
  role_of_header, extract,
}

cert-not_admin : (tenant : String) (i : CertInfo) → (principal_of_cert tenant i).role ≡ admin → ⊥
unfolding principal_of_cert
cert-not_admin tenant i h = ground arith

anonymous-not_admin : (tenant : String) → (anonymous_principal tenant).role ≡ admin → ⊥
unfolding anonymous_principal
anonymous-not_admin tenant h = ground arith

role-admin : (r : Option String) → role_of_header r ≡ admin → r ≡ some "admin"
unfolding role_of_header
role-admin none h = ground arith
role-admin (some r) h = ground (arith, eq_iff r "admin")

header-admin :
    (tenant : String) (h : PrincipalHeader)
    → (principal_of_header tenant h).role ≡ admin
    → h.role ≡ some "admin"
unfolding principal_of_header
header-admin tenant h e = role-admin h.role e

module _ {Cert Headers : Type 0} (parse_cert : Cert → Option CertInfo)
    (principal_header : Headers → Option PrincipalHeader) where
  -- The certificate that is read of a request, if it can be parsed.
  abbrev pub cert_info : Option (List Cert) → Option CertInfo
  cert_info none = none
  cert_info (some []) = none
  cert_info (some (c ∷ _)) = parse_cert c

  -- A first certificate that parses decides the identity, as an operator, whatever the header says.
  -- Without one the header does, and without both the request is anonymous and read-only.
  pub extract_priority :
      (tenant : String) (certs : Option (List Cert)) (headers : Headers)
      → ((i : CertInfo)
          → cert_info certs ≡ some i
          → extract parse_cert principal_header tenant certs headers
            ≡ (principal_of_cert tenant i, mtls))
        × ((h : PrincipalHeader)
            → cert_info certs ≡ none
            → principal_header headers ≡ some h
            → extract parse_cert principal_header tenant certs headers
              ≡ (principal_of_header tenant h, session_token))
        × (cert_info certs ≡ none
            → principal_header headers ≡ none
            → extract parse_cert principal_header tenant certs headers
              ≡ (anonymous_principal tenant, anonymous))
  unfolding extract
  extract_priority tenant none headers =
      (λ i e. ground arith, λ h e f. ground arith, λ e f. ground arith)
  extract_priority tenant (some []) headers =
      (λ i e. ground arith, λ h e f. ground arith, λ e f. ground arith)
  extract_priority tenant (some (c ∷ cs)) headers =
      (λ i e. ground arith, λ h e f. ground arith, λ e f. ground arith)

  -- Only the header makes an administrator: a request that gets the role `admin` has no certificate
  -- that parses, and its header names that role.
  pub extract-admin :
      (tenant : String) (certs : Option (List Cert)) (headers : Headers)
      → (extract parse_cert principal_header tenant certs headers).0.role ≡ admin
      → (cert_info certs ≡ none)
        × ((h : PrincipalHeader) × (principal_header headers ≡ some h) × (h.role ≡ some "admin"))
  extract-admin tenant certs headers e =
      let (by_cert, by_header, by_none) = extract_priority tenant certs headers in
      elim (Option-cases (cert_info certs)) [
        | inr (i, c) ↦ absurd (cert-not_admin tenant i (sym (ap (λ q. q.0.role) (by_cert i c)) ∙ e))
        | inl c ↦ elim (Option-cases (principal_header headers)) [
          | inl n ↦ absurd (anonymous-not_admin tenant (sym (ap (λ q. q.0.role) (by_none c n)) ∙ e))
          | inr (h, k) ↦
              (c, (h, k, header-admin tenant h (sym (ap (λ q. q.0.role) (by_header h c k)) ∙ e)))
        ]
      ]
