-- ===== src/Wpc.antt =====
-- The DPLL of the simulated WPC card, netdevsim/dpll.c: the lock status, which follows the GNSS signal,
-- and the GNSS receiver that user space writes to. A timer is armed or not; what is notified or inserted
-- into the receiver's read side is recorded.
pub mod Ubx
pub mod Nmea
pub mod Receiver
pub mod Setup
use netdevsim_dkms.Base.{
  ℕ, Bool, true, false, not, ◌&&◌, ◌||◌, List, [], ◌∷◌, ◌++◌, einval, err, Status, success, ◌==◌,
  if◌then◌else◌,
}

-- `enum dpll_lock_status`
pub data LockStatus : Type 0 where
  unlocked locked locked_ho_acq holdover : LockStatus

-- The receiver's and the lock's part of `struct nsim_dpll`. `ntf_work` is work that is scheduled, and
-- `inserted` what gnss_insert_raw was given.
pub record Ndpll : Type 0 where
  pub lock_status : LockStatus
  pub holdover_timer : Bool
  pub ntf_work : Bool
  pub ubx_timer : Bool
  pub ubx_nav_enabled : Bool
  pub signal_blocked : Bool
  pub gnss_gps_fix : ℕ
  pub inserted : List (List ℕ)

abbrev pub same_status : LockStatus → LockStatus → Bool
same_status unlocked unlocked = true
same_status locked locked = true
same_status locked_ho_acq locked_ho_acq = true
same_status holdover holdover = true
same_status unlocked x = false
same_status locked x = false
same_status locked_ho_acq x = false
same_status holdover x = false

unfoldable pub set_lock_status : LockStatus → Ndpll → Ndpll
set_lock_status status d =
    if same_status d.lock_status status
    then d
    else record d { lock_status = status; ntf_work = true }

-- `nsim_dpll_holdover_timer_cb`, of a timer that has run out.
unfoldable pub holdover_timer_cb : Ndpll → Ndpll
holdover_timer_cb d0 =
    let d : Ndpll = record d0 { holdover_timer = false } in
    if same_status d.lock_status holdover && ((d.gnss_gps_fix == 0) || d.signal_blocked)
    then set_lock_status unlocked d
    else d

unfoldable pub enter_holdover : Ndpll → Ndpll
enter_holdover d =
    let d' = if not (same_status d.lock_status holdover) then set_lock_status holdover d else d in
    record d' { holdover_timer = true }

unfoldable pub enter_locked : Ndpll → Ndpll
enter_locked d0 =
    let d : Ndpll = record d0 { holdover_timer = false } in
    if not (same_status d.lock_status locked_ho_acq) then set_lock_status locked_ho_acq d else d

-- What user space writes to lock_status.
pub data Word : Type 0 where
  locked_word holdover_word freerun_word other_word : Word

-- `nsim_dpll_lock_status_show`, where another text is "unknown".
unfoldable pub lock_status_show : Ndpll → Word
lock_status_show d = elim d.lock_status [
  | locked_ho_acq ↦ locked_word
  | holdover ↦ holdover_word
  | unlocked ↦ freerun_word
  | locked ↦ other_word
]

-- The part of `nsim_dpll_lock_status_store` that changes the state.
unfoldable pub store_status : LockStatus → Ndpll → Ndpll
store_status status d =
    if d.signal_blocked || (d.gnss_gps_fix == 0)
    then d
    else if same_status status holdover
    then enter_holdover d
    else if same_status status locked_ho_acq
    then enter_locked d
    else set_lock_status status (record d { holdover_timer = false })

unfoldable pub lock_status_store : Word → Ndpll → Status × Ndpll
lock_status_store locked_word d = (success, store_status locked_ho_acq d)
lock_status_store holdover_word d = (success, store_status holdover d)
lock_status_store freerun_word d = (success, store_status unlocked d)
lock_status_store other_word d = (err einval, d)

-- The start of the periodic messages, of `nsim_gnss_open` and `nsim_gnss_write_raw`.
abbrev pub start_nav : Ndpll → Ndpll
start_nav d =
    if not d.ubx_nav_enabled then record d { ubx_nav_enabled = true; ubx_timer = true } else d

unfoldable pub gnss_open : Ndpll → Ndpll
gnss_open d = start_nav d

unfoldable pub gnss_close : Ndpll → Ndpll
gnss_close d = record d { ubx_nav_enabled = false; ubx_timer = false }

-- `nsim_ubx_insert_locked`
abbrev pub insert : List ℕ → Ndpll → Ndpll
insert bytes d = record d { inserted = d.inserted ++ bytes ∷ [] }

-- `nsim_dpll_exit` cancels the timers and the work, and then takes the GNSS device away; what follows
-- frees the state. The timer of the notifications is left out.
unfoldable pub exit_timers : Ndpll → Ndpll
exit_timers d = record d { holdover_timer = false; ntf_work = false }

unfoldable pub exit_gnss : Ndpll → Ndpll
exit_gnss d = record d { ubx_nav_enabled = false; ubx_timer = false }
