-- ===== src/Lifecycle/Effects.antt =====
-- What a command that succeeds has done to its application and its process.
use cc_r_device_agent.Prelude.{
  ℕ, String, ◌≡◌, refl, ◌∙◌, ap, inl, inr, false, Option, none, some, arith, eq_iff, string_eq,
  Bool-cases, Option-cases, Result-cases, ok,
}
use cc_r_device_agent.Prelude.Dict
use cc_r_device_agent.Prelude.Dict.{get-insert_self, same_self, get-insert, get-remove}
use cc_r_device_agent.Lifecycle.Platform.{Platform}
use cc_r_device_agent.Lifecycle.Paths.{is_managed}
use cc_r_device_agent.Lifecycle.Apps.{running, stopped, AppManifest, AppInstance, Apps}
use cc_r_device_agent.Lifecycle.Operations.{do_stop, do_uninstall, dispose, pid_to_end}

module _ (pal : Platform) where
  open pal use {World, live}

  -- If `do_stop` of a known application succeeds, then it is stopped with no process, and the
  -- process that it had is not live.
  pub do_stop_ok :
      (apps : Apps) (w : World) (id : String) (i : AppInstance)
      → Dict.get id apps ≡ some i
      → (do_stop pal apps id w).2 ≡ ok tt
      → (Dict.get id (do_stop pal apps id w).0 ≡ some (record i { pid = none; state = stopped }))
        × ((p : ℕ) → i.pid ≡ some p → live (do_stop pal apps id w).1 p ≡ false)
  unfolding do_stop
  do_stop_ok apps w id i e h =
      let kept = get-insert_self id (record i { pid = none; state = stopped }) apps in
      elim (Option-cases i.pid) [
        | inl n ↦ rw (e, do_stop) (rw n (kept, λ p q. absurd (ground arith)))
        | inr (p, n) ↦ elim (Result-cases (pal.terminate p w).0) [
          | inl (u, r) ↦
              rw (e, do_stop) (rw n (rw r (kept, λ q z. ground (arith, pal.terminate_ok p w r q))))
          | inr (x, r) ↦ absurd (ground arith)
        ]
      ]

  dispose_gone :
      (apps : Apps) (id : String) (m : Option AppManifest) (w : World)
      → (Dict.get id (dispose pal apps id m w).0 ≡ none)
        × ((q : ℕ) → live (dispose pal apps id m w).1 q ≡ live w q)
  dispose_gone apps id none w = (rw get-remove (rw ((eq_iff id id).1 refl)), λ q. refl)
  dispose_gone apps id (some m) w = (
    rw get-remove (rw ((eq_iff id id).1 refl)),
    λ q. elim (Bool-cases (is_managed m.work_dir)) [
      | inl b ↦ rw b (pal.remove_live m.work_dir w q)
      | inr b ↦ rw b
    ],
  )

  -- If `do_uninstall` of a known application succeeds, then the application is not in the table, and
  -- the process of a running one is not live.
  pub do_uninstall_ok :
      (apps : Apps) (w : World) (id : String) (i : AppInstance)
      → Dict.get id apps ≡ some i
      → (do_uninstall pal apps id w).2 ≡ ok tt
      → (Dict.get id (do_uninstall pal apps id w).0 ≡ none)
        × ((p : ℕ)
            → i.state ≡ running
            → i.pid ≡ some p
            → live (do_uninstall pal apps id w).1 p ≡ false)
  unfolding do_uninstall
  do_uninstall_ok apps w id i e h = elim (Option-cases (pid_to_end i.state i.pid)) [
    | inl n ↦
        let (gone, _) = dispose_gone apps id i.manifest w in
        rw (e, do_uninstall)
          (rw n (gone, λ p r z. absurd (cc (n, ap (λ s. pid_to_end s i.pid) r, z))))
    | inr (p, n) ↦ elim (Result-cases (pal.terminate p w).0) [
      | inl (u, r) ↦
          let (gone, kept) = dispose_gone apps id i.manifest (pal.terminate p w).1 in
          rw (e, do_uninstall)
            (rw n
              (rw r (gone, λ q s z. kept q ∙ ground (arith, pal.terminate_ok p w r q, n, s, z))))
      | inr (x, r) ↦ absurd (ground arith)
    ]
  ]
