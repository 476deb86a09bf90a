-- ===== src/Wpc/Receiver/Leaving.antt =====
-- The end of the DPLL of netdevsim/dpll.c while user space still writes to the GNSS device.
use netdevsim_dkms.Base.{ℕ, ◌≡◌, refl, ◌<◌, true, false, List, [], ◌∷◌, arith, ◌∙◌}
use netdevsim_dkms.Wpc.{Ndpll, exit_timers, exit_gnss}
use netdevsim_dkms.Wpc.Receiver.{write_raw}
use netdevsim_dkms.Wpc.Receiver.Blocking.{valset_message, are_others, write_raw-valset_message}

-- `nsim_dpll_exit` leaves no timer armed and no work scheduled, but if user space blocks the signal
-- after the timers have been cancelled and before the GNSS device is taken away, the holdover timer is
-- armed when the state is freed.
pub exit-write_raw :
    (itow v l0 l1 h0 h1 h2 h3 a b : ℕ) (kvs : List (ℕ × ℕ)) (rest : List ℕ) (d : Ndpll)
    → are_others kvs ≡ true
    → 0 < v
    → let message = valset_message (l0 ∷ l1 ∷ h0 ∷ h1 ∷ h2 ∷ h3 ∷ []) kvs v rest (a ∷ b ∷ []) in
      let alone = exit_gnss (exit_timers d) in
      (alone.holdover_timer ≡ false)
      × (alone.ubx_timer ≡ false)
      × (alone.ntf_work ≡ false)
      × ((exit_gnss (write_raw itow message (exit_timers d))).holdover_timer ≡ true)
unfolding exit_timers exit_gnss
exit-write_raw itow v l0 l1 h0 h1 h2 h3 a b kvs rest d others pos =
    let (blocked, fix, status, timer, more) =
      write_raw-valset_message itow v l0 l1 h0 h1 h2 h3 a b kvs rest (exit_timers d) others in
    (refl, refl, refl, timer ∙ ground (arith, pos))
