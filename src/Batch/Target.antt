-- ===== src/Batch/Target.antt =====
-- src/batch.rs, `TargetSelector::matches`.
use Prim.Native.Char.{code}
use cc_r_device_agent.Prelude.{String, Bool, true, false, ◌&&◌, List, ◌==◌, any, str_eq}
use cc_r_device_agent.Batch.Types.{
  TargetSelector, all_devices, by_ids, by_pattern, by_tag, by_group,
}

-- `s.starts_with(prefix)`, the prefix first.
unfoldable pub is_start : String → String → Bool
is_start String.[] s = true
is_start (String.◌∷◌ c p) String.[] = false
is_start (String.◌∷◌ c p) (String.◌∷◌ d s) = (code c == code d) && is_start p s

unfoldable pub matches : TargetSelector → String → List String → List String → Bool
unfolding is_start
matches all_devices device_id tags groups = true
matches (by_ids ids) device_id tags groups = any (λ id. str_eq id device_id) ids
matches (by_pattern pattern) device_id tags groups = is_start pattern device_id
matches (by_tag tag) device_id tags groups = any (λ t. str_eq t tag) tags
matches (by_group group) device_id tags groups = any (λ g. str_eq g group) groups
