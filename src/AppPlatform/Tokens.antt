-- ===== src/AppPlatform/Tokens.antt =====
-- Which tokens `validate_session` accepts, after which operations on the table of sessions.
use cc_r_device_agent.Prelude.{
  ℕ, String, ◌≡◌, ◌↔◌, refl, sym, ap, ◌∙◌, ◌⊎◌, inl, inr, Bool, true, false, Option, none, some,
  arith, Bool-cases, ok, err, eq_iff, string_eq,
}
use mathlib.Core.Option.{some-injective}
use cc_r_device_agent.Prelude.Dict
use cc_r_device_agent.Prelude.Dict.{Dict}
use cc_r_device_agent.Chain.Interceptor.{unauthenticated}
use cc_r_device_agent.Store.Sessions.{
  AppTables, AppSessionRecord, load_app_session, upsert_app_session, revoke_app_session,
  update_live, update_found, upserted,
}
use cc_r_device_agent.AppPlatform.State.{Library, Status}
use cc_r_device_agent.AppPlatform.Session.{hash_token, is_past, check_record, validate_session}

-- A session was found, and it accepts a token at a time.
abbrev pub Accepts : Library → String → ℕ → Option AppSessionRecord → Type 0
Accepts lib token now_ms found =
    (rec : AppSessionRecord) × (found ≡ some rec)
    × (rec.revoked ≡ false)
    × (rec.session_token_hash ≡ hash_token lib token)
    × (is_past rec.expires_at_unix_ms now_ms ≡ false)

module _ (lib : Library) (token : String) (now_ms : ℕ) where
  check_record-Accepts :
      (found : Option AppSessionRecord)
      → check_record lib token now_ms found ≡ ok tt
      → Accepts lib token now_ms found
  unfolding check_record
  check_record-Accepts none h = absurd (cc)
  check_record-Accepts (some rec) h =
      let e = eq_iff rec.session_token_hash (hash_token lib token) in
      (rec, refl, ground (arith, e), ground (arith, e), ground (arith, e))

  Accepts-check_record :
      (found : Option AppSessionRecord)
      → Accepts lib token now_ms found
      → check_record lib token now_ms found ≡ ok tt
  unfolding check_record
  Accepts-check_record found (rec, e, live, matching, in_time) =
      rw e (ground (arith, eq_iff rec.session_token_hash (hash_token lib token)))

  -- A token is accepted exactly if its session is known, not revoked, kept under the token's hash
  -- and not past its end.
  pub validate_session-ok_iff :
      (app_id : String) (t : AppTables)
      → (validate_session lib app_id token now_ms t ≡ ok tt)
        ↔ Accepts lib token now_ms (load_app_session app_id t)
  unfolding validate_session
  validate_session-ok_iff app_id t = (
    check_record-Accepts (load_app_session app_id t),
    Accepts-check_record (load_app_session app_id t),
  )

abbrev pub IsRevoked : Option AppSessionRecord → Type 0
IsRevoked found = (rec : AppSessionRecord) → found ≡ some rec → rec.revoked ≡ true

-- The session of an application is absent or revoked.
abbrev pub IsGone : String → AppTables → Type 0
IsGone app_id t = IsRevoked (load_app_session app_id t)

refused_record :
    (lib : Library) (token : String) (now_ms : ℕ) (found : Option AppSessionRecord)
    → IsRevoked found
    → (status : Status) × (check_record lib token now_ms found ≡ err status)
      × (status.code ≡ unauthenticated)
unfolding check_record
refused_record lib token now_ms none gone = (_, refl, refl)
refused_record lib token now_ms (some rec) gone =
    (record { code = unauthenticated; message = "session revoked" }, rw (gone rec refl) refl, refl)

pub IsGone-refused :
    (lib : Library) (app_id token : String) (now_ms : ℕ) (t : AppTables)
    → IsGone app_id t
    → (status : Status) × (validate_session lib app_id token now_ms t ≡ err status)
      × (status.code ≡ unauthenticated)
unfolding validate_session
IsGone-refused lib app_id token now_ms t gone =
    refused_record lib token now_ms (load_app_session app_id t) gone

-- What a registration stores, whatever was there.
abbrev pub IsStored : AppSessionRecord → AppTables → Type 0
IsStored r t =
    (rec : AppSessionRecord) × (load_app_session r.app_id t ≡ some rec)
    × (rec.revoked ≡ r.revoked)
    × (rec.session_token_hash ≡ r.session_token_hash)
    × (rec.metadata_json ≡ r.metadata_json)
    × (rec.expires_at_unix_ms ≡ r.expires_at_unix_ms)

upserted_fields :
    (r : AppSessionRecord) (old : Option AppSessionRecord)
    → let rec = upserted r old in
      (rec.revoked ≡ r.revoked)
      × (rec.session_token_hash ≡ r.session_token_hash)
      × (rec.metadata_json ≡ r.metadata_json)
      × (rec.expires_at_unix_ms ≡ r.expires_at_unix_ms)
upserted_fields r none = (refl, refl, refl, refl)
upserted_fields r (some old) = (refl, refl, refl, refl)

pub upsert_app_session-IsStored :
    (r : AppSessionRecord) (t : AppTables) → IsStored r (upsert_app_session r t)
unfolding load_app_session upsert_app_session
upsert_app_session-IsStored r t =
    let old = Dict.get r.app_id t.sessions in
    let (a, b, c, d) = upserted_fields r old in
    (upserted r old, Dict.get-insert_self r.app_id (upserted r old) t.sessions, a, b, c, d)

-- The other sessions stay.
pub upsert_app_session-other :
    (r : AppSessionRecord) (t : AppTables) (other : String)
    → string_eq.same r.app_id other ≡ false
    → load_app_session other (upsert_app_session r t) ≡ load_app_session other t
unfolding load_app_session upsert_app_session
upsert_app_session-other r t other ne = Dict.get-insert_ne r.app_id other _ t.sessions ne

update_live-cases :
    (app_id : String) (change : AppSessionRecord → AppSessionRecord) (t : AppTables)
    (found : Option AppSessionRecord)
    → let t' = (update_found app_id change t found).0 in
      ((t' ≡ t) × IsRevoked found)
      ⊎ ((rec : AppSessionRecord) × (found ≡ some rec)
          × (rec.revoked ≡ false)
          × (t' ≡ record t { sessions = Dict.insert app_id (change rec) t.sessions }))
update_live-cases app_id change t none = inl (refl, λ rec e. absurd (cc))
update_live-cases app_id change t (some rec) = elim (Bool-cases rec.revoked) [
  | inl e ↦ inl (rw e refl, λ rec' e'. ground arith)
  | inr e ↦ inr (rec, refl, e, rw e refl)
]

-- Whether a found session is revoked; true where none is.
abbrev flag : Option AppSessionRecord → Bool
flag none = true
flag (some rec) = rec.revoked

pub revoke_app_session-IsGone :
    (app_id : String) (t : AppTables) → IsGone app_id (revoke_app_session app_id t).0
unfolding load_app_session revoke_app_session
revoke_app_session-IsGone app_id t rec found =
    let revoke = λ (r : AppSessionRecord). record r { revoked = true } in
    elim (update_live-cases app_id revoke t (Dict.get app_id t.sessions)) [
      | inl (same, gone) ↦ gone rec (ap (λ x. Dict.get app_id x.sessions) (sym same) ∙ found)
      | inr (old, there, live, made) ↦
          let now =
            sym (Dict.get-insert_self app_id (revoke old) t.sessions)
            ∙ ap (λ x. Dict.get app_id x.sessions) (sym made)
            ∙ found in
          ap (λ o. flag o) (sym now)
    ]

-- No update of a live session brings a revoked one back.
pub update_live-IsGone :
    (app_id other : String) (change : AppSessionRecord → AppSessionRecord) (t : AppTables)
    → IsGone other t
    → IsGone other (update_live app_id change t).0
unfolding load_app_session
update_live-IsGone app_id other change t gone rec found =
    elim (update_live-cases app_id change t (Dict.get app_id t.sessions)) [
      | inl (same, _) ↦ gone rec (ap (λ x. Dict.get other x.sessions) (sym same) ∙ found)
      | inr (old, there, live, made) ↦ elim (Bool-cases (string_eq.same app_id other)) [
        | inl e ↦
            let same = (string_eq.same_iff app_id other).0 e in
            let revoked = gone old (ap (λ x. Dict.get x t.sessions) (sym same) ∙ there) in
            absurd (cc)
        | inr ne ↦ gone rec (
            sym (Dict.get-insert_ne app_id other (change old) t.sessions ne)
            ∙ ap (λ x. Dict.get other x.sessions) (sym made)
            ∙ found)
      ]
    ]

pub IsStored-validates :
    (lib : Library) (token : String) (r : AppSessionRecord) (t : AppTables) (now_ms : ℕ)
    → IsStored r t
    → r.revoked ≡ false
    → r.session_token_hash ≡ hash_token lib token
    → (validate_session lib r.app_id token now_ms t ≡ ok tt)
      ↔ (is_past r.expires_at_unix_ms now_ms ≡ false)
IsStored-validates lib token r t now_ms (rec, found, a, b, c, d) live matching =
    let (accepted, accepts) = validate_session-ok_iff lib token now_ms r.app_id t in
    (
      λ h.
          let (rec', found', _, _, in_time) = accepted h in
          let same : rec' ≡ rec = some-injective rec' rec (sym found' ∙ found) in
          rw (sym (ap (λ x. x.expires_at_unix_ms) same ∙ d)) in_time,
      λ in_time. accepts (rec, found, a ∙ live, b ∙ matching, rw d in_time),
    )
