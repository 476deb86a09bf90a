-- ===== src/Wpc/Receiver/Signal.antt =====
-- The lock status of the DPLL of netdevsim/dpll.c in the course of writes, openings and timers.
use netdevsim_dkms.Base.{ℕ, ◌≡◌, refl, Bool, true, false, not, ◌&&◌, List, [], ◌∷◌, arith, inr, ◌⊎◌}
use netdevsim_dkms.Wpc.{
  LockStatus, unlocked, locked, locked_ho_acq, holdover, Ndpll, same_status, set_lock_status,
  holdover_timer_cb, Word, locked_word, holdover_word, freerun_word, other_word, lock_status_store,
  gnss_open, gnss_close,
}
use netdevsim_dkms.Wpc.Receiver.{ubx_timer_cb, write_raw}
use netdevsim_dkms.Wpc.Receiver.Tracking.{
  write_raw-IsTracking, ubx_timer_cb-IsTracking, start_nav-IsTracking,
}
use netdevsim_dkms.Wpc.Receiver.Setting.{
  is_lost, IsTracking, store_status-IsTracking, holdover_timer_cb-IsTracking,
}

-- What can happen to the receiver and to the lock.
pub data Step : Type 0 where
  write : ℕ → List ℕ → Step
  open_device close_device : Step
  store : Word → Step
  ubx_tick : ℕ → ℕ → Step
  holdover_timeout : Step

unfoldable pub step : Step → Ndpll → Ndpll
step (write itow buf) d = write_raw itow buf d
step open_device d = gnss_open d
step close_device d = gnss_close d
step (store word) d = (lock_status_store word d).1
step (ubx_tick i j) d = ubx_timer_cb i j d
step holdover_timeout d = holdover_timer_cb d

unfoldable pub run : List Step → Ndpll → Ndpll
run [] d = d
run (x ∷ xs) d = run xs (step x d)

-- The state that `nsim_dpll_init` leaves.
abbrev pub init : Ndpll
init = record {
  lock_status = locked_ho_acq;
  holdover_timer = false;
  ntf_work = false;
  ubx_timer = false;
  ubx_nav_enabled = false;
  signal_blocked = false;
  gnss_gps_fix = 3;
  inserted = [];
}

step-IsTracking : (x : Step) (d : Ndpll) → IsTracking d → IsTracking (step x d)
unfolding step gnss_open gnss_close lock_status_store
step-IsTracking (write itow buf) d v = write_raw-IsTracking itow buf d v
step-IsTracking open_device d v = start_nav-IsTracking d v
step-IsTracking close_device d v = ground (arith, v)
step-IsTracking (store locked_word) d v = store_status-IsTracking locked_ho_acq d refl v
step-IsTracking (store holdover_word) d v = store_status-IsTracking holdover d refl v
step-IsTracking (store freerun_word) d v = store_status-IsTracking unlocked d refl v
step-IsTracking (store other_word) d v = v
step-IsTracking (ubx_tick i j) d v = ubx_timer_cb-IsTracking i j d v
step-IsTracking holdover_timeout d v = holdover_timer_cb-IsTracking d v

run-IsTracking : (xs : List Step) (d : Ndpll) → IsTracking d → IsTracking (run xs d)
unfolding run
run-IsTracking [] d v = v
run-IsTracking (x ∷ xs) d v = run-IsTracking xs (step x d) (step-IsTracking x d v)

init-IsTracking : IsTracking init
init-IsTracking = ground arith

status-cases :
    (x : LockStatus) (timer : Bool)
    → same_status x locked_ho_acq ≡ false
    → same_status x holdover && not timer ≡ false
    → same_status x locked ≡ false
    → ((x ≡ holdover) × (timer ≡ true)) ⊎ (x ≡ unlocked)
status-cases unlocked timer a b c = inr refl
status-cases locked timer a b c = ground (arith, c)
status-cases locked_ho_acq timer a b c = ground (arith, a)
status-cases holdover timer a b c = ground (arith, b)

lost_status :
    (d : Ndpll)
    → IsTracking d
    → is_lost d ≡ true
    → ((d.lock_status ≡ holdover) × (d.holdover_timer ≡ true)) ⊎ (d.lock_status ≡ unlocked)
lost_status d v lost =
    status-cases d.lock_status d.holdover_timer (ground (arith, v.not_locked, lost))
      (ground (arith, v.armed, lost)) v.known

timeout-unlocked :
    (d : Ndpll) → IsTracking d → is_lost d ≡ true → (holdover_timer_cb d).lock_status ≡ unlocked
unfolding holdover_timer_cb set_lock_status
timeout-unlocked d v lost = ground (arith, lost_status d v lost, lost)

-- After any history of writes, openings, closings, texts written to lock_status and timers, a DPLL
-- whose signal is lost is in holdover, with the timer armed, or unlocked.
pub run-init-lost :
    (xs : List Step)
    → is_lost (run xs init) ≡ true
    → (((run xs init).lock_status ≡ holdover) × ((run xs init).holdover_timer ≡ true))
      ⊎ ((run xs init).lock_status ≡ unlocked)
run-init-lost xs lost = lost_status (run xs init) (run-IsTracking xs init init-IsTracking) lost

-- After any history that leaves the signal lost, the DPLL is unlocked once the holdover timer has run
-- out.
pub holdover_timeout-unlocked :
    (xs : List Step)
    → is_lost (run xs init) ≡ true
    → (step holdover_timeout (run xs init)).lock_status ≡ unlocked
unfolding step
holdover_timeout-unlocked xs lost =
    timeout-unlocked (run xs init) (run-IsTracking xs init init-IsTracking) lost
