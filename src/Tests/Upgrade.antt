-- ===== src/Tests/Upgrade.antt =====
-- Upgrades over a strategy whose world counts its calls, and that can be told to fail.
use cc_r_device_agent.Prelude.{
  ℕ, suc, String, ◌≡◌, ◌↔◌, ◌⊎◌, refl, Bool, true, false, none, some, [], ◌∷◌, ok, err,
  if◌then◌else◌, string_eq,
}
use cc_r_device_agent.Prelude.Dict
use cc_r_device_agent.Prelude.Dict.{Dict}
use cc_r_device_agent.Upgrade.Package.{
  UpgradeManifest, Codecs, validate_manifest, verify_package, sha256_agrees, verify_signature,
}
use cc_r_device_agent.Upgrade.Engine.{
  received, committed, UpgradeStrategy, UpgradeStateRecord, Run, run,
}
use cc_r_device_agent.Upgrade.Verified.{IsGood, verify_package-ok_iff}
use cc_r_device_agent.Upgrade.Outcomes.{IsUnchecked, IsUnstaged, IsActivated, started, run_outcomes}
use cc_r_device_agent.Upgrade.Records.{run_overwrites_previous}

abbrev toy_codecs : Codecs
toy_codecs = record {
  sha256 = λ bytes. bytes;
  encode_lower = λ bytes. elim bytes [ [] ↦ "00" | _ ∷ _ ↦ "01" ];
  to_ascii_lowercase = λ s. s;
  decode_base64 = λ s. some [];
  ed25519_verify = λ key payload signature. true;
}

record Site : Type 0 where
  calls : ℕ
  healthy : Bool

abbrev counted : Site → Site
counted w = record w { calls = suc w.calls }

abbrev strategy : UpgradeStrategy
strategy = record {
  World = Site;
  stage = λ m w. (ok tt, counted w);
  activate = λ m w. (ok tt, counted w);
  rollback = λ m w. (ok tt, counted w);
  post_check = λ m w. (if w.healthy then ok tt else err "unhealthy", counted w);
}

abbrev manifest : String → String → UpgradeManifest
manifest id sha = record {
  app_id = id;
  app_name = id;
  from_version = "1.0";
  to_version = "2.0";
  public_key_b64 = "";
  signature_b64 = "";
  package_sha256 = sha;
  build_number = 7;
  pre_activate_script = none;
  post_activate_script = none;
}

abbrev at_rest : Bool → Run strategy
at_rest healthy = record {
  engine = record {
    state = committed;
    current_manifest = some (manifest "clock" "00");
    store = some [];
  };
  world = record { calls = 0; healthy = healthy };
  trace = [];
}

-- A package without a digest, a signature or a key is taken as it is.
unsigned_taken : verify_package toy_codecs (manifest "weather" "") (some (ok (1 ∷ []))) ≡ ok tt
unfolding verify_package sha256_agrees verify_signature
unsigned_taken = refl

verify_package-ok_iff_example :
    (verify_package toy_codecs (manifest "weather" "01") (some (ok (1 ∷ []))) ≡ ok tt)
    ↔ IsGood toy_codecs (manifest "weather" "01") (some (ok (1 ∷ [])))
verify_package-ok_iff_example =
    verify_package-ok_iff toy_codecs (manifest "weather" "01") (some (ok (1 ∷ [])))

run_outcomes_example :
    let m = manifest "weather" "01" in
    let o = run strategy toy_codecs m (some (ok (1 ∷ []))) (at_rest false) in
    IsUnchecked strategy toy_codecs m (some (ok (1 ∷ []))) (at_rest false) o
    ⊎ ((validate_manifest m ≡ ok tt)
        × (verify_package toy_codecs m (some (ok (1 ∷ []))) ≡ ok tt)
        × (IsUnstaged strategy m (at_rest false) o
            ⊎ (((strategy.stage m (at_rest false).world).0 ≡ ok tt)
                × IsActivated strategy m
                    (strategy.stage m (at_rest false).world).1
                    (started strategy [])
                    o)))
run_outcomes_example =
    run_outcomes strategy toy_codecs (manifest "weather" "01") (some (ok (1 ∷ []))) (at_rest false)

run_overwrites_previous_example :
    let o = run strategy toy_codecs (manifest "weather" "01") (some (ok (1 ∷ []))) (at_rest true) in
    (t : Dict String UpgradeStateRecord) × (o.0.engine.store ≡ some t)
    × (Dict.get "clock" t
        ≡ some (record { id = "clock"; target_version = "2.0"; state = received }))
run_overwrites_previous_example =
    run_overwrites_previous strategy toy_codecs (manifest "weather" "01") (manifest "clock" "00")
      (some (ok (1 ∷ []))) (at_rest true) [] refl refl refl
