-- ===== src/Wpc/Receiver/Setting.antt =====
-- What changes the lock status of the DPLL of netdevsim/dpll.c, and what that leaves of the signal.
use netdevsim_dkms.Base.{
  ℕ, ◌≡◌, refl, Bool, true, false, not, ◌&&◌, ◌||◌, List, arith, Result, ok, err, ◌==◌, Bool-cases,
  inl, inr,
}
use netdevsim_dkms.Wpc.{
  LockStatus, unlocked, locked, locked_ho_acq, holdover, Ndpll, same_status, set_lock_status,
  holdover_timer_cb, enter_holdover, enter_locked, store_status, start_nav,
}
use netdevsim_dkms.Wpc.Nmea.{set_fix, quality_to_gps_fix}
use netdevsim_dkms.Wpc.Receiver.{answer, set_blocked}

-- The signal is lost when it is blocked or there is no fix.
abbrev pub is_lost : Ndpll → Bool
is_lost d = d.signal_blocked || (d.gnss_gps_fix == 0)

-- A blocked signal has no fix; without a signal the DPLL is in holdover, with the timer armed, or
-- unlocked.
pub record IsTracking (d : Ndpll) : Type 0 where
  pub blocked : d.signal_blocked && not (d.gnss_gps_fix == 0) ≡ false
  pub not_locked : is_lost d && same_status d.lock_status locked_ho_acq ≡ false
  pub armed : is_lost d && same_status d.lock_status holdover && not d.holdover_timer ≡ false
  pub known : same_status d.lock_status locked ≡ false

-- Two states whose lock and signal are the same.
pub record IsAlike (d e : Ndpll) : Type 0 where
  pub status : d.lock_status ≡ e.lock_status
  pub timer : d.holdover_timer ≡ e.holdover_timer
  pub blocked : d.signal_blocked ≡ e.signal_blocked
  pub fix : d.gnss_gps_fix ≡ e.gnss_gps_fix

pub IsTracking-IsAlike : (d e : Ndpll) → IsAlike d e → IsTracking e → IsTracking d
IsTracking-IsAlike d e a v = ground (arith, a, v)

pub answer-IsAlike : (r : Result (List ℕ)) (d : Ndpll) → IsAlike (answer r d) d
answer-IsAlike (ok bytes) d = ground arith
answer-IsAlike (err e) d = ground arith

pub start_nav-IsAlike : (d : Ndpll) → IsAlike (start_nav d) d
start_nav-IsAlike d = ground arith

pub same_status-same : (a b : LockStatus) → same_status a b ≡ true → a ≡ b
same_status-same unlocked unlocked h = refl
same_status-same unlocked locked h = ground (arith, h)
same_status-same unlocked locked_ho_acq h = ground (arith, h)
same_status-same unlocked holdover h = ground (arith, h)
same_status-same locked unlocked h = ground (arith, h)
same_status-same locked locked h = refl
same_status-same locked locked_ho_acq h = ground (arith, h)
same_status-same locked holdover h = ground (arith, h)
same_status-same locked_ho_acq unlocked h = ground (arith, h)
same_status-same locked_ho_acq locked h = ground (arith, h)
same_status-same locked_ho_acq locked_ho_acq h = refl
same_status-same locked_ho_acq holdover h = ground (arith, h)
same_status-same holdover unlocked h = ground (arith, h)
same_status-same holdover locked h = ground (arith, h)
same_status-same holdover locked_ho_acq h = ground (arith, h)
same_status-same holdover holdover h = refl

-- What a change of the lock does.
pub record IsMoved (x : LockStatus) (b : Bool) (d' d : Ndpll) : Type 0 where
  pub status : d'.lock_status ≡ x
  pub timer : d'.holdover_timer ≡ b
  pub blocked : d'.signal_blocked ≡ d.signal_blocked
  pub fix : d'.gnss_gps_fix ≡ d.gnss_gps_fix
  pub inserted : d'.inserted ≡ d.inserted

set_lock_status-IsMoved :
    (status : LockStatus) (d : Ndpll) → IsMoved status d.holdover_timer (set_lock_status status d) d
unfolding set_lock_status
set_lock_status-IsMoved status d = elim (Bool-cases (same_status d.lock_status status)) [
  | inl same ↦ ground (arith, same, same_status-same d.lock_status status same)
  | inr other ↦ ground (arith, other)
]

pub enter_holdover-IsMoved : (d : Ndpll) → IsMoved holdover true (enter_holdover d) d
unfolding enter_holdover
enter_holdover-IsMoved d = elim (Bool-cases (same_status d.lock_status holdover)) [
  | inl same ↦ ground (arith, same, same_status-same d.lock_status holdover same)
  | inr other ↦ ground (arith, other, set_lock_status-IsMoved holdover d)
]

pub enter_locked-IsMoved : (d : Ndpll) → IsMoved locked_ho_acq false (enter_locked d) d
unfolding enter_locked
enter_locked-IsMoved d =
    let e : Ndpll = record d { holdover_timer = false } in
    elim (Bool-cases (same_status d.lock_status locked_ho_acq)) [
      | inl same ↦ ground (arith, same, same_status-same d.lock_status locked_ho_acq same)
      | inr other ↦ ground (arith, other, set_lock_status-IsMoved locked_ho_acq e)
    ]

pub set_blocked-IsTracking : (v : ℕ) (d : Ndpll) → IsTracking (set_blocked v d)
unfolding set_blocked
set_blocked-IsTracking v d =
    let off : Ndpll = record d { signal_blocked = true; gnss_gps_fix = 0 } in
    let on : Ndpll = record d { signal_blocked = false; gnss_gps_fix = 3 } in
    ground (arith, enter_holdover-IsMoved off, enter_locked-IsMoved on)

pub set_fix-IsTracking :
    (q : ℕ) (d : Ndpll) → d.signal_blocked ≡ false → IsTracking d → IsTracking (set_fix q d)
unfolding set_fix
set_fix-IsTracking q d free h =
    let e : Ndpll = record d { gnss_gps_fix = quality_to_gps_fix q } in
    ground (arith, free, h, enter_holdover-IsMoved e, enter_locked-IsMoved e)

pub store_status-IsTracking :
    (status : LockStatus) (d : Ndpll)
    → same_status status locked ≡ false
    → IsTracking d
    → IsTracking (store_status status d)
unfolding store_status
store_status-IsTracking status d k h =
    let e : Ndpll = record d { holdover_timer = false } in
    ground (
      arith,
      k,
      h,
      enter_holdover-IsMoved d,
      enter_locked-IsMoved d,
      set_lock_status-IsMoved status e,
    )

pub holdover_timer_cb-IsTracking : (d : Ndpll) → IsTracking d → IsTracking (holdover_timer_cb d)
unfolding holdover_timer_cb
holdover_timer_cb-IsTracking d h =
    let e : Ndpll = record d { holdover_timer = false } in
    ground (arith, h, set_lock_status-IsMoved unlocked e)
