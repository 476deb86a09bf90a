-- ===== src/Wpc/Setup.antt =====
-- What `nsim_dpll_init` of netdevsim/dpll.c acquires, how it backs out, and what `nsim_dpll_exit` releases.
-- What the callees answer is an argument, and so is whether a write to the GNSS device, once it is
-- registered, arms the holdover timer.
pub mod Stacks
pub mod Parts
pub mod Backing
mod Examples
use netdevsim_dkms.Base.{
  ℕ, zero, suc, ◌+◌, Bool, true, false, ◌&&◌, Option, none, some, List, [], ◌∷◌, ◌++◌, Status, ok,
  err, success, ◌==◌, if◌then◌else◌,
}
use netdevsim_dkms.Dev.Stages.{is_held, release, set_up}

-- What a DPLL holds: itself, its two devices with their registrations, the GNSS pin with its, the timer
-- and the work of notifications, the GNSS device, the file lock_status, the holdover timer while it is
-- armed, the external pins with their registrations, and for a port the private data, the pin, its
-- registration and that the interface refers to it.
pub data DpllStage : Type 0 where
  ndpll pps_dpll pps_registered eec_dpll eec_registered gnss_pin gnss_registered : DpllStage
  ntf_timer ntf_work gnss_dev gnss_dev_registered sysfs_kobj lock_status_file : DpllStage
  holdover_timer : DpllStage
  ext_pin ext_registered : ℕ → DpllStage
  npin port_pin port_registered netdev_pin : ℕ → DpllStage

-- The kind of a stage and the number of its pin.
abbrev pub place : DpllStage → ℕ × ℕ
place ndpll = (0, 0)
place pps_dpll = (1, 0)
place pps_registered = (2, 0)
place eec_dpll = (3, 0)
place eec_registered = (4, 0)
place gnss_pin = (5, 0)
place gnss_registered = (6, 0)
place ntf_timer = (7, 0)
place ntf_work = (8, 0)
place gnss_dev = (9, 0)
place gnss_dev_registered = (10, 0)
place sysfs_kobj = (11, 0)
place lock_status_file = (12, 0)
place holdover_timer = (13, 0)
place (ext_pin i) = (14, i)
place (ext_registered i) = (15, i)
place (npin i) = (16, i)
place (port_pin i) = (17, i)
place (port_registered i) = (18, i)
place (netdev_pin i) = (19, i)

abbrev pub same_dpll_stage : DpllStage → DpllStage → Bool
same_dpll_stage s t = ((place s).0 == (place t).0) && ((place s).1 == (place t).1)

abbrev pub let_go : DpllStage → Option (List DpllStage) → Option (List DpllStage)
let_go s h = release same_dpll_stage s h

-- The labels of `nsim_dpll_init`; `n` is `num_ext_pins`.
abbrev err_free : Option (List DpllStage) → Option (List DpllStage)
err_free h = let_go ndpll h

abbrev err_pps_put : Option (List DpllStage) → Option (List DpllStage)
err_pps_put h = err_free (let_go pps_dpll h)

abbrev err_pps_unreg : Option (List DpllStage) → Option (List DpllStage)
err_pps_unreg h = err_pps_put (let_go pps_registered h)

abbrev err_eec_put : Option (List DpllStage) → Option (List DpllStage)
err_eec_put h = err_pps_unreg (let_go eec_dpll h)

abbrev err_eec_unreg : Option (List DpllStage) → Option (List DpllStage)
err_eec_unreg h = err_eec_put (let_go eec_registered h)

abbrev err_gnss_put : Option (List DpllStage) → Option (List DpllStage)
err_gnss_put h = err_eec_unreg (let_go gnss_pin h)

-- The loop over the external pins, from the last one down.
abbrev pub ext_cleanup : ℕ → Option (List DpllStage) → Option (List DpllStage)
ext_cleanup zero h = h
ext_cleanup (suc n) h = ext_cleanup n (let_go (ext_pin n) (let_go (ext_registered n) h))

abbrev pub err_ext_cleanup : ℕ → Option (List DpllStage) → Option (List DpllStage)
err_ext_cleanup n h = err_gnss_put (let_go gnss_registered (ext_cleanup n h))

-- `nsim_dpll_cleanup_port_pins`, over the `n` pins that are left of the list, from the `i`-th on.
abbrev pub cleanup_port_pins : ℕ → ℕ → Option (List DpllStage) → Option (List DpllStage)
cleanup_port_pins i zero h = h
cleanup_port_pins i (suc n) h =
    cleanup_port_pins (suc i) n
      (let_go (npin i) (let_go (port_pin i) (let_go (port_registered i) (let_go (netdev_pin i) h))))

-- `n` is the number of pins in the list `port_pins`.
abbrev pub err_ports_cleanup : ℕ → Option (List DpllStage) → Option (List DpllStage)
err_ports_cleanup n h =
    err_ext_cleanup 4 (cleanup_port_pins 0 n (let_go ntf_work (let_go ntf_timer h)))

abbrev pub err_gnss_cleanup : ℕ → Option (List DpllStage) → Option (List DpllStage)
err_gnss_cleanup n h = err_ports_cleanup n (let_go gnss_dev (let_go gnss_dev_registered h))

abbrev pub err_sysfs_kobj : ℕ → Option (List DpllStage) → Option (List DpllStage)
err_sysfs_kobj n h = err_gnss_cleanup n (let_go sysfs_kobj h)

-- The loop over the external pins: pin `i`, with what it does where the pin is not given or not registered.
abbrev ext_stages : ℕ → ℕ → List (DpllStage × (Option (List DpllStage) → Option (List DpllStage)))
ext_stages i zero = []
ext_stages i (suc n) =
    (ext_pin i, err_ext_cleanup i)
    ∷ (ext_registered i, λ h. err_ext_cleanup i (let_go (ext_pin i) h))
    ∷ ext_stages (suc i) n

-- The stages of `nsim_dpll_init` before the ports, each with the way out where it fails; starting the timer
-- and its work does not fail.
abbrev pub first_stages : List (DpllStage × (Option (List DpllStage) → Option (List DpllStage)))
first_stages =
    ((ndpll, λ h. h)
      ∷ (pps_dpll, err_free)
      ∷ (pps_registered, err_pps_put)
      ∷ (eec_dpll, err_pps_unreg)
      ∷ (eec_registered, err_eec_put)
      ∷ (gnss_pin, err_eec_unreg)
      ∷ (gnss_registered, err_gnss_put)
      ∷ [])
    ++ ext_stages 0 4

abbrev pub timers_started : List DpllStage → List DpllStage
timers_started h = ntf_work ∷ ntf_timer ∷ h

-- The loop over the `n` PF ports that are left, from the `i`-th on. Where the pin is not given its private
-- data is freed, and where it is not registered the pin is put too; the pins of the ports before are in the
-- list.
abbrev pub port_stages :
    ℕ → ℕ → List (DpllStage × (Option (List DpllStage) → Option (List DpllStage)))
port_stages i zero = []
port_stages i (suc n) =
    (npin i, err_ports_cleanup i)
    ∷ (port_pin i, λ h. err_ports_cleanup i (let_go (npin i) h))
    ∷ (port_registered i, λ h. err_ports_cleanup i (let_go (npin i) (let_go (port_pin i) h)))
    ∷ (
      netdev_pin i,
      λ h.
          err_ports_cleanup i
            (let_go (npin i) (let_go (port_pin i) (let_go (port_registered i) h))),
    )
    ∷ port_stages (suc i) n

-- The GNSS device, and the file lock_status.
abbrev pub gnss_stages : ℕ → List (DpllStage × (Option (List DpllStage) → Option (List DpllStage)))
gnss_stages n =
    (gnss_dev, err_ports_cleanup n)
    ∷ (gnss_dev_registered, λ h. err_ports_cleanup n (let_go gnss_dev h))
    ∷ []

abbrev pub file_stages : ℕ → List (DpllStage × (Option (List DpllStage) → Option (List DpllStage)))
file_stages n = (sysfs_kobj, err_gnss_cleanup n) ∷ (lock_status_file, err_sysfs_kobj n) ∷ []

-- The holdover timer, where it is armed.
abbrev pub arm : Bool → List DpllStage → List DpllStage
arm true h = holdover_timer ∷ h
arm false h = h

-- That an interface refers to its pin does not fail.
abbrev pub answered : (DpllStage → Status) → DpllStage → Status
answered a s = if (place s).0 == 19 then success else a s

abbrev pub is_success : Status → Bool
is_success (ok u) = true
is_success (err e) = false

-- What follows a part that succeeded.
abbrev pub go_on :
    Status × Option (List DpllStage)
    → (List DpllStage → Status × Option (List DpllStage))
    → Status × Option (List DpllStage)
go_on (err e, h) next = (err e, h)
go_on (ok u, none) next = (ok u, none)
go_on (ok u, some h) next = next h

-- `nsim_dpll_init` until the GNSS device is registered, on a device of `n` PF ports.
unfoldable pub gnss_init : ℕ → (DpllStage → Status) → Status × Option (List DpllStage)
gnss_init n a = go_on (set_up first_stages (answered a) []) (λ h.
    go_on (set_up (port_stages 0 n) (answered a) (timers_started h))
      (λ h. set_up (gnss_stages n) (answered a) h))

-- `nsim_dpll_init`
unfoldable pub dpll_init : ℕ → Bool → (DpllStage → Status) → Status × Option (List DpllStage)
dpll_init n armed a = go_on (gnss_init n a) (λ h. set_up (file_stages n) (answered a) (arm armed h))

-- Cancelling a timer that is not armed changes nothing.
abbrev pub cancel_holdover : Option (List DpllStage) → Option (List DpllStage)
cancel_holdover none = none
cancel_holdover (some h) =
    if is_held same_dpll_stage holdover_timer h then let_go holdover_timer (some h) else some h

-- `nsim_dpll_exit` of a DPLL that was set up with the pins of `n` ports, while nothing writes to the GNSS
-- device.
unfoldable pub dpll_exit_all : ℕ → Option (List DpllStage) → Option (List DpllStage)
dpll_exit_all n h =
    let no_file = let_go sysfs_kobj (let_go lock_status_file h) in
    let no_timers = let_go ntf_work (cancel_holdover (let_go ntf_timer no_file)) in
    let no_gnss_dev = let_go gnss_dev (let_go gnss_dev_registered no_timers) in
    let no_pins = ext_cleanup 4 (cleanup_port_pins 0 n no_gnss_dev) in
    let no_gnss_pin = let_go gnss_pin (let_go gnss_registered no_pins) in
    let no_eec = let_go eec_dpll (let_go eec_registered no_gnss_pin) in
    let_go ndpll (let_go pps_dpll (let_go pps_registered no_eec))
