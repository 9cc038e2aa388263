-- ===== src/Router.antt =====
-- src/data_router.rs: topics of the applications, the registry of downlink subscribers and the
-- uplink. A sender is alive as long as its stream has not been dropped.
pub mod Downlink
pub mod Uplink
use Prim.Native.Char.{code}
use Prim.Native.String
use cc_r_device_agent.Prelude.{
  ℕ, zero, suc, ◌+◌, String, Bool, true, false, ◌||◌, ◌&&◌, Option, none, some, List, [], ◌∷◌, ◌++◌,
  ◌==◌, length, or_else, if◌then◌else◌, Result, ok, err, ◌>>=◌, ◌+s◌, any_char, string_eq, str_eq,
  not,
}
use cc_r_device_agent.Prelude.Dict
use cc_r_device_agent.Prelude.Dict.{Dict}

unfoldable pub app_uplink_topic : String → String → String → String → String
app_uplink_topic tenant device_id app_id topic =
    tenant +s "/" +s device_id +s "/apps/" +s app_id +s "/" +s topic

-- `topic.contains("..")`.
unfoldable pub has_dots : String → Bool
has_dots String.[] = false
has_dots (String.◌∷◌ c String.[]) = false
has_dots (String.◌∷◌ c (String.◌∷◌ d s)) =
    ((code c == b'.') && (code d == b'.')) || has_dots (String.◌∷◌ d s)

unfoldable pub starts_with_slash : String → Bool
starts_with_slash String.[] = false
starts_with_slash (String.◌∷◌ c s) = code c == b'/'

unfoldable pub validate_app_topic : String → Result String (Unit {0})
unfolding has_dots starts_with_slash any_char
validate_app_topic topic =
    if str_eq topic ""
    then err "topic must not be empty"
    else if has_dots topic || starts_with_slash topic
    then err ("invalid topic: " +s topic)
    else if any_char (λ c. c == b'#') topic || any_char (λ c. c == b'+') topic
    then err ("topic must not contain MQTT wildcard characters: " +s topic)
    else ok tt

pub record DataRouter : Type 0 where
  pub tenant : String
  pub device_id : String

unfoldable pub uplink_topic : DataRouter → String → String → Result String String
unfolding validate_app_topic app_uplink_topic
uplink_topic r app_id topic =
    validate_app_topic topic >>= λ _. ok (app_uplink_topic r.tenant r.device_id app_id topic)

-- The publisher is an argument; the topic that it was called with is given back.
unfoldable pub publish_uplink :
    DataRouter
    → String
    → String
    → List ℕ
    → (String → List ℕ → Result String (Unit {0}))
    → Result String (Unit {0}) × Option String
unfolding uplink_topic
publish_uplink r app_id topic payload publish = elim (uplink_topic r app_id topic) [
  | err e ↦ (err e, none)
  | ok full_topic ↦ (publish full_topic payload, some full_topic)
]

abbrev pub Registry : Type 0 → Type 0
Registry Sender = Dict String (List Sender)

module _ {Sender : Type 0} where
  abbrev pub senders_of : String → Registry Sender → List Sender
  senders_of app_id registry = or_else (Dict.get app_id registry) []

  unfoldable pub subscribe : String → Sender → Registry Sender → Registry Sender
  subscribe app_id tx registry = Dict.insert app_id (senders_of app_id registry ++ tx ∷ []) registry

  unfoldable pub remove_app : String → Registry Sender → Registry Sender
  remove_app app_id registry = Dict.remove app_id registry

  -- `Vec::swap_remove`: the last element takes the place; `none` is its panic.
  abbrev pub second : Sender → List Sender → List Sender
  second x [] = x ∷ []
  second x (y ∷ ys) = y ∷ x ∷ ys

  abbrev pub last_first : List Sender → List Sender
  last_first [] = []
  last_first (x ∷ xs) = second x (last_first xs)

  unfoldable pub swap_remove : ℕ → List Sender → Option (List Sender)
  swap_remove i [] = none
  swap_remove zero (x ∷ xs) = some (last_first xs)
  swap_remove (suc i) (x ∷ xs) = elim (swap_remove i xs) [ none ↦ none | some ys ↦ some (x ∷ ys) ]

  -- The positions of the senders whose `send` fails.
  unfoldable pub dead_from : (Sender → Bool) → ℕ → List Sender → List ℕ
  dead_from alive i [] = []
  dead_from alive i (tx ∷ txs) =
      let rest = dead_from alive (suc i) txs in if alive tx then rest else i ∷ rest

  -- `for i in dead.iter().rev() { v.swap_remove(*i) }`.
  unfoldable pub remove_dead : List ℕ → List Sender → Option (List Sender)
  unfolding swap_remove
  remove_dead [] v = some v
  remove_dead (i ∷ dead) v = elim (remove_dead dead v) [ none ↦ none | some w ↦ swap_remove i w ]

  -- The second half of `deliver`, on the registry as it is after the sends: the positions are those
  -- of the senders as they were before them.
  unfoldable pub clean_up : String → List ℕ → Registry Sender → Option (Registry Sender)
  unfolding remove_dead
  clean_up app_id [] registry = some registry
  clean_up app_id (i ∷ dead) registry = elim (Dict.get app_id registry) [
    | none ↦ some registry
    | some v ↦ elim (remove_dead (i ∷ dead) v) [
      | none ↦ none
      | some w ↦ some (Dict.insert app_id w registry)
    ]
  ]

  -- Nothing else changes the registry during the sends. Also given: the senders that are sent to.
  unfoldable pub deliver :
      (Sender → Bool) → String → Registry Sender → Option (Registry Sender) × List Sender
  unfolding dead_from clean_up
  deliver alive app_id registry =
      let senders = senders_of app_id registry in
      (clean_up app_id (dead_from alive 0 senders) registry, senders)
