-- ===== src/Config/Table.antt =====
-- The table config_versions of crates/agent-store/src/lib.rs as its SQL reads and writes it, on a
-- database whose statements fail only by their constraints.
use cc_r_device_agent.Prelude.{
  ℕ, ◌≤◌, String, ◌≡◌, Bool, ◌&&◌, Option, none, some, List, [], ◌∷◌, any, leb, ◌==◌, str_eq,
  if◌then◌else◌, Result, ok, err,
}

pub record ConfigVersionRecord : Type 0 where
  pub scope : String
  pub key : String
  pub version : ℕ
  pub value_json : String
  pub signature : Option String

abbrev pub Table : Type 0
Table = List ConfigVersionRecord

abbrev pub is_for : String → String → ConfigVersionRecord → Bool
is_for scope key r = str_eq r.scope scope && str_eq r.key key

-- The primary key is (scope, key, version).
abbrev pub same_row : ConfigVersionRecord → ConfigVersionRecord → Bool
same_row r q = is_for r.scope r.key q && (q.version == r.version)

unfoldable pub insert_config_version :
    ConfigVersionRecord → Table → Table × Result String (Unit {0})
insert_config_version r t =
    if any (same_row r) t then (t, err "UNIQUE constraint failed") else (r ∷ t, ok tt)

-- The later of two rows by `ORDER BY version DESC`.
abbrev later : ConfigVersionRecord → Option ConfigVersionRecord → Option ConfigVersionRecord
later r none = some r
later r (some q) = if leb q.version r.version then some r else some q

-- `SELECT .. WHERE scope AND key ORDER BY version DESC LIMIT 1`.
unfoldable pub load_latest_config : String → String → Table → Option ConfigVersionRecord
load_latest_config scope key [] = none
load_latest_config scope key (r ∷ t) =
    let rest = load_latest_config scope key t in if is_for scope key r then later r rest else rest

-- No row for this scope and key has a version above the bound.
abbrev pub IsBelow : String → String → Table → ℕ → Type 0
IsBelow scope key t n =
    (r : ConfigVersionRecord) → load_latest_config scope key t ≡ some r → r.version ≤ n
