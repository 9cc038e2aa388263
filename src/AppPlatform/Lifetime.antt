-- ===== src/AppPlatform/Lifetime.antt =====
-- The life of a session over the calls of the service: from its registration to its end.
use cc_r_device_agent.Prelude.{
  ℕ, ◌≤◌, ◌<◌, ◌+◌, ◌%◌, ◌^◌, false, arith, String, ◌≡◌, ◌↔◌, refl, ap, ◌∙◌, inl, inr, Option, none,
  some, Bool-cases, ok, err, str_eq, string_eq,
}
use cc_r_device_agent.Prelude.Dict
use cc_r_device_agent.Store.Sessions.{
  AppTables, load_app_session, upsert_app_session, upsert_app_manifest,
}
use cc_r_device_agent.Lifecycle.Platform.{Platform}
use cc_r_device_agent.Lifecycle.Task.{
  State, Answer, done, state_is, app_is, apps_are, register, handle,
}
use cc_r_device_agent.AppPlatform.State.{Library, Reads, AppPlatformState}
use cc_r_device_agent.AppPlatform.Session.{
  app_principal, app_role, role_named, role_of_found, validate_session, expiry, is_past,
}
use cc_r_device_agent.AppPlatform.Tokens.{IsStored, upsert_app_session-IsStored, IsStored-validates}
use cc_r_device_agent.AppPlatform.Handlers.{
  RegisterAppRequest, RegisterAppResponse, session_of, manifest_of, registration, after_register,
  with_manager, register_handler,
}
use cc_r_device_agent.AppPlatform.Guard.{secured_rpc-ok}
use cc_r_device_agent.AppPlatform.Calls.{register_security, register_app}

mod_below : (n : ℕ) → n < 2 ^ 64 → n % 2 ^ 64 ≡ n
mod_below n h = omega arith

module _ (pal : Platform) (lib : Library) (r : Reads) where
  -- The state behind the two writes of a registration.
  abbrev pub stored : AppPlatformState pal → RegisterAppRequest → AppTables
  stored s req =
      upsert_app_manifest (manifest_of pal lib r s req)
        (upsert_app_session (session_of pal lib r s req) s.store)

  after_register-ok :
      (response : RegisterAppResponse) (s : AppPlatformState pal) (a : State pal × Answer)
      (answered : RegisterAppResponse)
      → let out = after_register pal lib r response s a in
        out.0 ≡ ok answered → (answered ≡ response) × (out.1.store ≡ s.store)
  after_register-ok response s (l, done (ok u)) answered h = (cc, refl)
  after_register-ok response s (l, done (err e)) answered h = absurd (cc)
  after_register-ok response s (l, state_is o) answered h = (cc, refl)
  after_register-ok response s (l, app_is o) answered h = (cc, refl)
  after_register-ok response s (l, apps_are o) answered h = (cc, refl)

  with_manager-ok :
      (req : RegisterAppRequest) (response : RegisterAppResponse) (s : AppPlatformState pal)
      (l : Option (State pal)) (answered : RegisterAppResponse)
      → let out = with_manager pal lib r req response s l in
        out.0 ≡ ok answered → (answered ≡ response) × (out.1.store ≡ s.store)
  unfolding with_manager
  with_manager-ok req response s none answered h = (cc, refl)
  with_manager-ok req response s (some l) answered h =
      after_register-ok response s
        (handle pal (register response.app_id req.app_name req.app_version) l) answered h

  -- A registration that is answered has stored its session.
  register_handler-ok :
      (req : RegisterAppRequest) (s : AppPlatformState pal) (answered : RegisterAppResponse)
      → let out = register_handler pal lib r req s in
        out.0 ≡ ok answered
        → (answered ≡ registration pal lib r s req) × (out.1.store ≡ stored s req)
  unfolding register_handler
  register_handler-ok req s answered h = elim (Bool-cases (str_eq req.app_name "")) [
    | inl e ↦ let bad = rw (e, register_handler) at h in absurd (cc)
    | inr e ↦
        rw (e, register_handler)
          (with_manager-ok req (registration pal lib r s req) (record s { store = stored s req })
            s.lifecycle answered (rw (e, register_handler) at h))
  ]

  pub stored-IsStored :
      (s : AppPlatformState pal) (req : RegisterAppRequest)
      → IsStored (session_of pal lib r s req) (stored s req)
  unfolding load_app_session upsert_app_manifest
  stored-IsStored s req = upsert_app_session-IsStored (session_of pal lib r s req) s.store

  pub register_app-stored :
      (req : RegisterAppRequest) (s : AppPlatformState pal) (answered : RegisterAppResponse)
      → let out = register_app pal lib req r s in
        out.0 ≡ ok answered
        → (answered ≡ registration pal lib r s req) × (out.1.store ≡ stored s req)
  unfolding register_app
  register_app-stored req s answered h =
      let (sc', (won, state)) =
        secured_rpc-ok pal lib r (register_security pal lib s req) (register_handler pal lib r req)
          s answered h in
      let (a, b) = register_handler-ok req (record s { security_center = some sc' }) answered won in
      (a, ap (λ x. x.store) state ∙ b)

  expiry-is_past :
      (at duration now_ms : ℕ)
      → at + duration < 2 ^ 64
      → (is_past (expiry at duration) now_ms ≡ false)
        ↔ ((now_ms ≤ at + duration) × (at + duration < 2 ^ 63))
  unfolding is_past expiry
  expiry-is_past at duration now_ms small = rw (mod_below (at + duration) small) (ground arith)

  -- Where the time of a registration and the duration of a session are together below 2^64
  -- milliseconds: the token of a registered application is accepted exactly up to the end of its
  -- session, if the end is below 2^63, and otherwise never.
  pub register_app-validates :
      (req : RegisterAppRequest) (s : AppPlatformState pal) (answered : RegisterAppResponse)
      (now_ms : ℕ)
      → r.handled_at + s.session_duration < 2 ^ 64
      → let out = register_app pal lib req r s in
        out.0 ≡ ok answered
        → (validate_session lib answered.app_id answered.session_token now_ms out.1.store ≡ ok tt)
          ↔ ((now_ms ≤ r.handled_at + s.session_duration)
              × (r.handled_at + s.session_duration < 2 ^ 63))
  register_app-validates req s answered now_ms small h =
      let (e, kept) = register_app-stored req s answered h in
      let rec = session_of pal lib r s req in
      let (there, back) =
        IsStored-validates lib r.token rec (stored s req) now_ms (stored-IsStored s req) refl
          refl in
      let (in_time, not_past) = expiry-is_past r.handled_at s.session_duration now_ms small in
      rw (e, kept) (λ accepted. in_time (there accepted), λ end. back (not_past end))

  -- The role of a registered application is the one that its own metadata name.
  pub register_app-role :
      (req : RegisterAppRequest) (s : AppPlatformState pal) (answered : RegisterAppResponse)
      (json : String)
      → lib.map_to_json req.metadata ≡ some json
      → lib.map_of_json json ≡ some req.metadata
      → let out = register_app pal lib req r s in
        out.0 ≡ ok answered
        → (app_principal lib s.device_id answered.app_id out.1.store).role
          ≡ role_named (Dict.get "role" req.metadata)
  unfolding app_principal app_role
  register_app-role req s answered json printed parsed h =
      let (e, kept) = register_app-stored req s answered h in
      let (rec, found, _, _, same, _) = stored-IsStored s req in
      let kept_json : rec.metadata_json ≡ json = same ∙ rw printed refl in
      let named : role_of_found lib (some rec) ≡ ok (role_named (Dict.get "role" req.metadata)) =
        rw (kept_json, parsed) refl in
      let role = ap (role_of_found lib) found ∙ named in rw (e, kept) (rw role refl)
