-- ===== src/Tests/Router.antt =====
-- src/data_router.rs at concrete inputs, partly those of its unit tests.
use cc_r_device_agent.Prelude.{
  ℕ, String, ◌≡◌, refl, Bool, false, none, some, List, [], ◌∷◌, ◌==◌, any_char, string_eq,
}
use mathlib.Core.List.{Perm}
use cc_r_device_agent.Prelude.Dict
use cc_r_device_agent.Prelude.Sort.{keep}
use cc_r_device_agent.Router.{
  DataRouter, Registry, senders_of, app_uplink_topic, has_dots, starts_with_slash,
  validate_app_topic, uplink_topic, dead_from, clean_up, deliver,
}
use cc_r_device_agent.Router.Downlink.{deliver_alive, deliver_stale}
use cc_r_device_agent.Router.Uplink.{uplink_topic_apart}

topic_mapping :
    app_uplink_topic "acme" "dev-01" "weather-app" "metrics"
    ≡ "acme/dev-01/apps/weather-app/metrics"
unfolding app_uplink_topic
topic_mapping = refl

abbrev router : DataRouter
router = record { tenant = "acme"; device_id = "dev-01" }

uplink_topic_apart_example : (◌≡◌ {A = String} "a" "a") × (◌≡◌ {A = String} "metrics" "metrics")
uplink_topic_apart_example =
    uplink_topic_apart router "a" "a" "metrics" "metrics" "acme/dev-01/apps/a/metrics"
      (unfold any_char in refl) (unfold any_char in refl)
      (unfold uplink_topic validate_app_topic app_uplink_topic has_dots starts_with_slash
          any_char in
        refl)
      (unfold uplink_topic validate_app_topic app_uplink_topic has_dots starts_with_slash
          any_char in
        refl)

abbrev even_alive : ℕ → Bool
even_alive n = n == 2

abbrev three : Registry ℕ
three = ("app", 1 ∷ 2 ∷ 3 ∷ []) ∷ []

deliver_alive_example :
    (left : Registry ℕ) × (deliver even_alive "app" three ≡ (some left, senders_of "app" three))
    × Perm (senders_of "app" left) (keep even_alive (senders_of "app" three))
    × ((other : String)
        → string_eq.same "app" other ≡ false
        → Dict.get other left ≡ Dict.get other three)
deliver_alive_example = deliver_alive even_alive "app" three

deliver_stale_example :
    let dead = dead_from even_alive 0 (1 ∷ 2 ∷ []) in
    let subscribed : List ℕ → Registry ℕ = λ senders. ("app", senders) ∷ [] in
    (clean_up "app" dead (subscribed (1 ∷ 2 ∷ [])) ≡ some (subscribed (2 ∷ [])))
    × (clean_up "app" dead (subscribed (2 ∷ [])) ≡ some (subscribed []))
    × (clean_up "app" dead (subscribed []) ≡ none)
deliver_stale_example = deliver_stale even_alive "app" 1 2 refl refl
