-- ===== src/Chain/Mapper/Rights.antt =====
-- Which roles may call which RPC: the mapper together with the default policy.
use cc_r_device_agent.Prelude.{
  String, ◌≡◌, refl, inl, inr, ◌↔◌, some, List, [], ◌∷◌, arith, Bool, true, false, Option-cases,
  all,
}
use cc_r_device_agent.Security.Types.{
  admin, operator, readonly, Resource, telemetry, file_transfer, control_command, app_control,
  configuration, Action, read, write, execute, allow, Principal,
}
use cc_r_device_agent.Security.Rbac.{default_policy, authorize}
use cc_r_device_agent.Chain.Mapper.{Arm, arms, find_arm, map, rsplit_once}

-- The pairs that stand in the table.
is_mapped : Resource → Action → Bool
is_mapped app_control execute = true
is_mapped control_command execute = true
is_mapped telemetry read = true
is_mapped configuration write = true
is_mapped file_transfer write = true
is_mapped file_transfer read = true
is_mapped _ _ = false

arms_mapped : all (λ m. is_mapped m.resource m.action) arms ≡ true
unfolding arms is_mapped
arms_mapped = refl

find_arm_mapped :
    (svc method : String) (l : List Arm) (r : Resource) (a : Action)
    → all (λ m. is_mapped m.resource m.action) l ≡ true
    → find_arm svc method l ≡ some (r, a)
    → is_mapped r a ≡ true
unfolding find_arm
find_arm_mapped svc method [] r a h e = cc
find_arm_mapped svc method (m ∷ l) r a h e = ground (arith, find_arm_mapped svc method l r a)

map_mapped :
    (path : String) (r : Resource) (a : Action) → map path ≡ some (r, a) → is_mapped r a ≡ true
unfolding map
map_mapped path r a h = elim (Option-cases (rsplit_once b'/' path)) [
  | inl e ↦ absurd (ground arith)
  | inr (q, e) ↦ find_arm_mapped q.0 q.1 arms r a arms_mapped (ground arith)
]

-- Under the default policy an administrator may call every RPC that the mapper knows, an operator
-- every one that is not mapped to writing the configuration, and a read-only principal exactly
-- those that are mapped to `read`.
pub map-authorize :
    (path : String) (r : Resource) (a : Action) (p : Principal)
    → map path ≡ some (r, a)
    → (p.role ≡ admin → authorize default_policy p r a ≡ allow)
      × (p.role ≡ operator
          → (authorize default_policy p r a ≡ allow) ↔ ¬ ((r ≡ configuration) × (a ≡ write)))
      × (p.role ≡ readonly → (authorize default_policy p r a ≡ allow) ↔ (a ≡ read))
unfolding authorize default_policy is_mapped
map-authorize path r a p h =
    let m = map_mapped path r a h in
    (
      λ e. ground arith,
      λ e. (λ k w. ground arith, λ k. ground arith),
      λ e. (λ k. ground arith, λ k. ground arith),
    )
