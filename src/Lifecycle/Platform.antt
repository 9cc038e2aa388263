-- ===== src/Lifecycle/Platform.antt =====
-- What src/app_lifecycle.rs uses of the platform abstraction (crates/pal-core/src/lib.rs), of the
-- file system and of the clock: an interface with the behaviour that the theorems rely on.
use cc_r_device_agent.Prelude.{
  ℕ, String, ◌≡◌, Bool, true, false, Option, List, ◌==◌, if◌then◌else◌, Result, ok, err,
}

pub record ProcessSpec : Type 0 where
  pub program : String
  pub args : List String
  pub env : List (String × String)
  pub cwd : Option String

pub record ResourceLimitSpec : Type 0 where
  pub memory_bytes : Option ℕ
  pub cpu_millis : Option ℕ
  pub open_files : Option ℕ

-- `World` is all that lies outside the agent. `live w p` says that the process manager has started
-- the process `p` and has not terminated it.
pub record Platform : Type 1 where
  pub World : Type 0
  pub exists : World → String → Bool
  pub start : ProcessSpec → World → Result String ℕ × World
  pub apply_to_pid : ℕ → ResourceLimitSpec → World → Result String (Unit {0}) × World
  pub terminate : ℕ → World → Result String (Unit {0}) × World
  pub remove_dir_all : String → World → World
  pub now : World → ℕ
  pub live : World → ℕ → Bool
  -- A started process gets an identifier that no live process has; nothing else starts or stops.
  pub start_ok :
      (s : ProcessSpec) (w : World) (p : ℕ)
      → (start s w).0 ≡ ok p
      → (live w p ≡ false) × ((q : ℕ) → live (start s w).1 q ≡ (if p == q then true else live w q))
  pub start_err :
      (s : ProcessSpec) (w : World) (e : String)
      → (start s w).0 ≡ err e
      → (q : ℕ) → live (start s w).1 q ≡ live w q
  pub apply_live :
      (p : ℕ) (l : ResourceLimitSpec) (w : World) (q : ℕ) → live (apply_to_pid p l w).1 q ≡ live w q
  pub terminate_ok :
      (p : ℕ) (w : World)
      → (terminate p w).0 ≡ ok tt
      → (q : ℕ) → live (terminate p w).1 q ≡ (if p == q then false else live w q)
  pub terminate_err :
      (p : ℕ) (w : World) (e : String)
      → (terminate p w).0 ≡ err e
      → (q : ℕ) → live (terminate p w).1 q ≡ live w q
  pub remove_live : (d : String) (w : World) (q : ℕ) → live (remove_dir_all d w) q ≡ live w q
