-- ===== src/Lib.antt =====
-- Verification library of CC-rDeviceAgent, the agent that runs on a managed device: it checks who
-- may ask for what, keeps an audit trail, runs payload applications, watches their health and
-- executes scripts in batches. The parts, with the code that they model:
--   Prelude        shared names, Boolean tests, results, texts, and Rust's HashMap as an
--                  association list (Prelude/Dict)
--   Security       crates/agent-core/src/security.rs: the RBAC policy (Rbac), the replay guard
--                  (Replay), the security center that asks the one and then the other (Center), the
--                  chain of audit events (Audit)
--   CommandPolicy  crates/agent-core/src/command_policy.rs: the whitelist of remote commands
--   Chain          crates/agent-core/src/chain.rs: the paths of the RPCs (Mapper), the identity of a
--                  caller (Identity), and the interceptor in front of every RPC, which uses both and
--                  the center and writes audit entries (Interceptor)
--   Lifecycle      src/app_lifecycle.rs: the table of applications and the task that handles the
--                  commands one by one, over an interface for the platform (Platform)
--   Config         src/config_manager.rs: the scopes of keys and values with their versions, and the
--                  table config_versions of crates/agent-store/src/lib.rs behind them
--   Health         src/health_evaluator.rs: reports on applications and the actions that they fire
--   Batch          src/batch.rs: which devices a task is for, the batches in which its items are
--                  executed, its status
--   Upgrade        src/upgrade_engine.rs: the checks of a package and the phases of an upgrade, over
--                  an interface for the strategy
--   Store          crates/agent-store/src/lib.rs: the tables of audit events, replay nonces, RBAC
--                  policies and sessions, and what reads and writes them
--   Router         src/data_router.rs: the registry of the subscribers to a downlink, and the topics of
--                  what applications send up
--   AppPlatform    src/app_platform.rs: the service that applications call: what it keeps, the tokens
--                  and roles of a session, the path of every RPC and what each RPC does
--   Tags           src/tags.rs and src/tags_store.rs: tags and their assignments to devices, in two
--                  caches in front of two tables
--   Groups         src/groups.rs and src/groups_store.rs: groups of devices, in a cache in front of a
--                  table
--   Alerts         src/alert_engine.rs: the rules over telemetry, their conditions, and when they
--                  fire
--   Tests          runs at concrete inputs, and the theorems applied to them
-- State is passed on by hand: an operation takes the state and gives the new one with its answer, and
-- a failing operation gives what it has written before it failed. Where the order of outside effects
-- matters, as in the interceptor, it is a list. Operations under one lock or in one task come one
-- after another, so a history is a list of calls.
-- Functions keep the names of the code; the part of a function behind an early return or in a loop is
-- a definition of its own. Numbers are natural numbers. The counter of the health evaluator and
-- the totals of a task are u32, the count of an alert's firings is u64, and all three wrap around;
-- limits are u64 and saturate; the end of a session is an i64 that wraps around; other numbers are
-- only compared, or too far from their bound to reach it. In the service of the applications times
-- count milliseconds as the code does, elsewhere instants and durations count
-- nanoseconds; the clock is an argument. All loops walk a list; fuel is used only to print a
-- decimal number, one unit more than the number itself, which has fewer digits.
-- Code outside the repository is a parameter: SHA-256 and Ed25519 (ring), JSON (serde_json), X.509
-- certificates, the audit sink, the handler of an RPC, the file system, regular expressions, the
-- numbers f64, the publisher of a message. The process manager and the resource limiter
-- (crates/pal-core, with crates/pal-linux and crates/pal-mock behind it) are an interface too.
-- Random texts and identifiers are arguments of the operation that draws them.
-- Not modelled are the wiring of the program (src/app.rs), the opening and migration of the SQLite
-- database, its backup, keys and file transfers (crates/agent-store), the monitors and the telemetry,
-- MQTT and plugins, the engine of scripts, the stores of scripts and batches, and the
-- strategy that swaps the directories of an application; logging and the texts of error messages
-- are left out everywhere.
pub mod Prelude
pub mod Security
pub mod CommandPolicy
pub mod Chain
pub mod Batch
pub mod Health
pub mod Store
pub mod Tags
pub mod Groups
pub mod Router
pub mod Alerts
pub mod AppPlatform
pub mod Config
pub mod Upgrade
pub mod Lifecycle
pub mod Tests
