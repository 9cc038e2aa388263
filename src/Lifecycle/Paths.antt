-- ===== src/Lifecycle/Paths.antt =====
-- `Path::starts_with` as src/app_lifecycle.rs uses it before it removes a directory.
use cc_r_device_agent.Prelude.{
  String, Bool, true, false, ◌&&◌, ◌||◌, List, [], ◌∷◌, if◌then◌else◌, str_eq, split,
}

abbrev keep_part : String → List String → List String
keep_part p ps = if str_eq p "" || str_eq p "." then ps else p ∷ ps

-- The parts between the separators, without the empty ones and `.`.
unfoldable pub normal_parts : List String → List String
normal_parts [] = []
normal_parts (p ∷ ps) = keep_part p (normal_parts ps)

abbrev rooted : List String → List String
rooted [] = []
rooted (p ∷ ps) = if str_eq p "" then "/" ∷ normal_parts ps else normal_parts (p ∷ ps)

-- `Path::components`: `/` for the root, and `..` is kept. A leading `.` is dropped, which a
-- comparison with a rooted path does not show.
unfoldable pub components : String → List String
unfolding split normal_parts
components path = rooted (split b'/' path)

unfoldable pub is_prefix : List String → List String → Bool
is_prefix [] ys = true
is_prefix (x ∷ xs) [] = false
is_prefix (x ∷ xs) (y ∷ ys) = str_eq x y && is_prefix xs ys

abbrev pub managed_root : List String
managed_root = "/" ∷ "var" ∷ "lib" ∷ "cc-rdeviceagent" ∷ "apps" ∷ []

-- `work_dir.starts_with("/var/lib/cc-rdeviceagent/apps")`.
unfoldable pub is_managed : String → Bool
unfolding components is_prefix
is_managed work_dir = is_prefix managed_root (components work_dir)
