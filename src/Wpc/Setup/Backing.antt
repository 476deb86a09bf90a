-- ===== src/Wpc/Setup/Backing.antt =====
-- What `nsim_dpll_init` of netdevsim/dpll.c leaves where it fails, and what is left after `nsim_dpll_exit`.
use netdevsim_dkms.Base.{
  ℕ, ◌≡◌, refl, sym, ap, ◌∙◌, Bool, true, false, ◌&&◌, inl, inr, Option, some, List, [], ◌∷◌, arith,
  Errno, err, Status, success,
}
use netdevsim_dkms.Dev.Stages.{set_up, set_up-err, set_up-ok}
use netdevsim_dkms.Wpc.Setup.{
  DpllStage, ndpll, pps_dpll, pps_registered, eec_dpll, eec_registered, gnss_pin, gnss_registered,
  ntf_timer, ntf_work, gnss_dev, gnss_dev_registered, sysfs_kobj, lock_status_file, let_go,
  cleanup_port_pins, file_stages, arm, answered, is_success, go_on, gnss_init, dpll_init,
  cancel_holdover, dpll_exit_all, same_dpll_stage, ext_cleanup,
}
use netdevsim_dkms.Wpc.Setup.Stacks.{stacked, skip, let_go-arm, cleanup-stacked, not_held-stacked}
use netdevsim_dkms.Wpc.Setup.Parts.{
  first_held, ports_held, gnss_held, stop_timer, stop_work, file-BacksOut, gnss_init-cases,
}

-- A set-up of the DPLL that fails, at whatever step, among them each of the four external pins and each step
-- of each port, releases on its way out only what it holds, and leaves nothing held but the holdover timer,
-- where the GNSS device was registered and a write to it armed the timer.
pub dpll_init-err :
    (n : ℕ) (armed : Bool) (a : DpllStage → Status) (e : Errno)
    → (dpll_init n armed a).0 ≡ err e
    → (dpll_init n armed a).1 ≡ some (arm (armed && is_success (gnss_init n a).0) [])
unfolding dpll_init
dpll_init-err n armed a e h =
    let file = λ (r : Status × Option (List DpllStage)).
      go_on r (λ x. set_up (file_stages n) (answered a) (arm armed x)) in
    elim (gnss_init-cases n a) [
      | inl (x, q) ↦
          let none_armed : [] ≡ arm (armed && is_success (gnss_init n a).0) [] =
            never armed (gnss_init n a) x (ap (λ r. r.0) q) in
          ap (λ r. (file r).1) q ∙ ap some none_armed
      | inr q ↦
          let held = arm armed (gnss_held n) in
          let h' : (set_up (file_stages n) (answered a) held).0 ≡ err e =
            sym (ap (λ r. (file r).0) q) ∙ h in
          ap (λ r. (file r).1) q
          ∙ set_up-err (file_stages n) (answered a) held (arm armed []) e (file-BacksOut armed n) h'
          ∙ ap some (kept armed (gnss_init n a) (ap (λ r. r.0) q))
    ]
  where
    never :
        (armed : Bool) (r : Status × Option (List DpllStage)) (x : Errno)
        → r.0 ≡ err x
        → [] ≡ arm (armed && is_success r.0) []
    never true r x q = ap (λ s. arm (is_success s) []) (sym q)
    never false r x q = refl

    kept :
        (armed : Bool) (r : Status × Option (List DpllStage))
        → r.0 ≡ success
        → arm armed [] ≡ arm (armed && is_success r.0) []
    kept true r q = ap (λ s. arm (is_success s) []) (sym q)
    kept false r q = refl

not_armed :
    (n : ℕ)
    → cancel_holdover (some (gnss_dev_registered ∷ gnss_dev ∷ stacked 0 n (ntf_work ∷ first_held)))
      ≡ some (gnss_dev_registered ∷ gnss_dev ∷ stacked 0 n (ntf_work ∷ first_held))
not_armed n = rw (not_held-stacked 0 n (ntf_work ∷ first_held) refl) refl

cancelled :
    (armed : Bool) (n : ℕ)
    → let h = gnss_dev_registered ∷ gnss_dev ∷ stacked 0 n (ntf_work ∷ first_held) in
      cancel_holdover (some (arm armed h)) ≡ some h
cancelled true n = refl
cancelled false n = not_armed n

-- Something below the GNSS device is let go.
below_gnss :
    (s : DpllStage) (xs ys : List DpllStage)
    → same_dpll_stage s gnss_dev_registered ≡ false
    → same_dpll_stage s gnss_dev ≡ false
    → let_go s (some xs) ≡ some ys
    → let_go s (some (gnss_dev_registered ∷ gnss_dev ∷ xs))
      ≡ some (gnss_dev_registered ∷ gnss_dev ∷ ys)
below_gnss s xs ys d d' h =
    skip s gnss_dev_registered (gnss_dev ∷ xs) (gnss_dev ∷ ys) d (skip s gnss_dev xs ys d' h)

exit_file :
    (n : ℕ) (armed : Bool)
    → let_go ntf_work (cancel_holdover (let_go ntf_timer (some (arm armed (gnss_held n)))))
      ≡ some (gnss_dev_registered ∷ gnss_dev ∷ stacked 0 n first_held)
exit_file n armed =
    let running = stacked 0 n (ntf_work ∷ first_held) in
    ap (λ h. let_go ntf_work (cancel_holdover h))
      (let_go-arm armed ntf_timer (gnss_held n) (gnss_dev_registered ∷ gnss_dev ∷ running) refl
        (below_gnss ntf_timer (ports_held n) running refl refl (stop_timer n)))
    ∙ ap (let_go ntf_work) (cancelled armed n)
    ∙ below_gnss ntf_work running (stacked 0 n first_held) refl refl (stop_work n)

-- The end of `nsim_dpll_exit`, once the pins of the ports are gone.
abbrev from_ext_pins : Option (List DpllStage) → Option (List DpllStage)
from_ext_pins h =
    let no_gnss_pin = let_go gnss_pin (let_go gnss_registered (ext_cleanup 4 h)) in
    let no_eec = let_go eec_dpll (let_go eec_registered no_gnss_pin) in
    let_go ndpll (let_go pps_dpll (let_go pps_registered no_eec))

dpll_exit-held :
    (n : ℕ) (armed : Bool)
    → dpll_exit_all n (some (lock_status_file ∷ sysfs_kobj ∷ arm armed (gnss_held n))) ≡ some []
unfolding dpll_exit_all
dpll_exit-held n armed =
    ap (λ h. from_ext_pins (cleanup_port_pins 0 n (let_go gnss_dev (let_go gnss_dev_registered h))))
      (exit_file n armed)
    ∙ ap from_ext_pins (cleanup-stacked false 0 n first_held)

-- A DPLL that was set up, with the pins of any number of ports, holds nothing after its end, where nothing
-- writes to the GNSS device meanwhile; the end releases only what is held, the holdover timer with it where
-- it was armed.
pub dpll_exit-dpll_init :
    (n : ℕ) (armed : Bool) (a : DpllStage → Status)
    → (dpll_init n armed a).0 ≡ success
    → dpll_exit_all n (dpll_init n armed a).1 ≡ some []
unfolding dpll_init
dpll_exit-dpll_init n armed a h =
    let file = λ (r : Status × Option (List DpllStage)).
      go_on r (λ x. set_up (file_stages n) (answered a) (arm armed x)) in
    elim (gnss_init-cases n a) [
      | inl (x, q) ↦
          let failed : err x ≡ success = sym (ap (λ r. (file r).0) q) ∙ h in
          absurd (ground (arith, failed))
      | inr q ↦
          let held = arm armed (gnss_held n) in
          let h' : (set_up (file_stages n) (answered a) held).0 ≡ success =
            sym (ap (λ r. (file r).0) q) ∙ h in
          ap (λ r. dpll_exit_all n (file r).1) q
          ∙ ap (dpll_exit_all n) (set_up-ok (file_stages n) (answered a) held h')
          ∙ dpll_exit-held n armed
    ]
