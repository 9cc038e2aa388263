-- ===== src/Lifecycle/Stopping.antt =====
-- Stopping and uninstalling keep the table consistent.
use cc_r_device_agent.Prelude.{
  ℕ, String, ◌≡◌, refl, ◌∙◌, ap, inl, inr, false, Option, none, some, arith, eq_iff, string_eq,
  if◌then◌else◌, Bool-cases, Option-cases, Result-cases, ◌==◌,
}
use cc_r_device_agent.Prelude.Dict
use cc_r_device_agent.Lifecycle.Platform.{Platform}
use cc_r_device_agent.Lifecycle.Paths.{is_managed}
use cc_r_device_agent.Lifecycle.Apps.{AppState, AppManifest, AppInstance, Apps}
use cc_r_device_agent.Lifecycle.Operations.{do_stop, do_uninstall, pid_to_end, dispose}
use cc_r_device_agent.Lifecycle.Invariant.{
  IsConsistent, OthersLive, insert-IsConsistent, remove-IsConsistent,
}
use cc_r_device_agent.Lifecycle.Starting.{Keeps, same_world, idle}

module _ (pal : Platform) where
  open pal use {World, live}

  -- Ending the process of an entry leaves those of the other entries live.
  others_survive :
      (apps : Apps) (w w' : World) (id : String) (i : AppInstance) (p : ℕ)
      → IsConsistent pal apps w
      → Dict.get id apps ≡ some i
      → i.pid ≡ some p
      → ((q : ℕ) → live w' q ≡ (if p == q then false else live w q))
      → OthersLive pal apps w' id
  others_survive apps w w' id i p h g e ended j k q ne gj ej = elim (Bool-cases (p == q)) [
    | inl same ↦
        let q≡p : q ≡ p = ground arith in
        absurd (cc (ne, (eq_iff id j).1 (h.distinct id j i k p g gj e (ej ∙ ap some q≡p))))
    | inr other ↦ ended q ∙ rw other (h.tracked j k q gj ej).1
  ]

  pub do_stop-Keeps :
      (apps : Apps) (w : World) (id : String)
      → IsConsistent pal apps w
      → Keeps pal (do_stop pal apps id w)
  unfolding do_stop
  do_stop-Keeps apps w id h = elim (Option-cases (Dict.get id apps)) [
    | inl e ↦ rw (e, do_stop) h
    | inr (i, e) ↦
        let key = h.keyed id i e in
        elim (Option-cases i.pid) [
          | inl n ↦
              rw (e, do_stop)
                (rw n (
                  insert-IsConsistent pal apps w w id _ h (idle pal apps w w id _ key refl refl)
                    (same_world pal apps w id h)))
          | inr (p, q) ↦ elim (Result-cases (pal.terminate p w).0) [
            | inl (u, r) ↦
                rw (e, do_stop)
                  (rw q (
                    rw r (
                      insert-IsConsistent pal apps w (pal.terminate p w).1 id _ h
                        (idle pal apps w _ id _ key refl refl)
                        (others_survive apps w _ id i p h e q (pal.terminate_ok p w r)))))
            | inr (x, r) ↦
                rw (e, do_stop)
                  (rw q (
                    rw r (
                      insert-IsConsistent pal apps w (pal.terminate p w).1 id _ h
                        (idle pal apps w _ id _ key refl refl)
                        (λ j k s ne g t. pal.terminate_err p w x r s ∙ (h.tracked j k s g t).1))))
          ]
        ]
  ]

  dispose-Keeps :
      (apps : Apps) (w w' : World) (id : String) (m : Option AppManifest)
      → IsConsistent pal apps w
      → OthersLive pal apps w' id
      → Keeps pal (dispose pal apps id m w')
  dispose-Keeps apps w w' id none h others = remove-IsConsistent pal apps w w' id h others
  dispose-Keeps apps w w' id (some m) h others = elim (Bool-cases (is_managed m.work_dir)) [
    | inl e ↦ rw e (
        remove-IsConsistent pal apps w (pal.remove_dir_all m.work_dir w') id h
          (λ j k q ne g t. pal.remove_live m.work_dir w' q ∙ others j k q ne g t))
    | inr e ↦ rw e (remove-IsConsistent pal apps w w' id h others)
  ]

  pid_to_end-pid : (s : AppState) (o : Option ℕ) (p : ℕ) → pid_to_end s o ≡ some p → o ≡ some p
  pid_to_end-pid s o p h = ground arith

  pub do_uninstall-Keeps :
      (apps : Apps) (w : World) (id : String)
      → IsConsistent pal apps w
      → Keeps pal (do_uninstall pal apps id w)
  unfolding do_uninstall
  do_uninstall-Keeps apps w id h = elim (Option-cases (Dict.get id apps)) [
    | inl e ↦ rw (e, do_uninstall) h
    | inr (i, e) ↦ elim (Option-cases (pid_to_end i.state i.pid)) [
      | inl n ↦
          rw (e, do_uninstall)
            (rw n (dispose-Keeps apps w w id i.manifest h (same_world pal apps w id h)))
      | inr (p, n) ↦
          let q = pid_to_end-pid i.state i.pid p n in
          elim (Result-cases (pal.terminate p w).0) [
            | inl (u, r) ↦
                rw (e, do_uninstall)
                  (rw n (
                    rw r (
                      dispose-Keeps apps w (pal.terminate p w).1 id i.manifest h
                        (others_survive apps w _ id i p h e q (pal.terminate_ok p w r)))))
            | inr (x, r) ↦
                rw (e, do_uninstall)
                  (rw n (
                    rw r (
                      insert-IsConsistent pal apps w (pal.terminate p w).1 id _ h
                        (idle pal apps w _ id _ (h.keyed id i e) (h.reached id i e) refl)
                        (λ j k s ne g t. pal.terminate_err p w x r s ∙ (h.tracked j k s g t).1))))
          ]
    ]
  ]
