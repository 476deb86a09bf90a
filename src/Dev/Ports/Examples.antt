-- ===== src/Dev/Ports/Examples.antt =====
-- Runs of the ports of netdevsim/dev.c on concrete inputs.
use netdevsim_dkms.Base.{
  ℕ, ◌≡◌, refl, true, false, List, [], ◌∷◌, arith, enomem, err, success, ◌==◌, if◌then◌else◌,
}
use netdevsim_dkms.Dev.Ports.{
  pf, vf, legacy, switchdev, Dev, PortAnswers, port_add, add_ports, port_add_all, port_del_all,
  esw_switchdev_enable, eswitch_mode_set, drv_configure_vfs, drv_port_del, has_index, del_index,
}
use netdevsim_dkms.Dev.Ports.Loops.{vf_ports, stacked}
use netdevsim_dkms.Dev.Ports.Eswitch.{vf_ports_of, IsSound}
use netdevsim_dkms.Dev.Ports.Steps.{
  Op, mode_set, configure_vfs, new_port, del_port, step, step-err, run, new_dev,
  run-port_add_all-IsSound,
}
use netdevsim_dkms.Dev.Ports.Back.{mode_set-back, configure_vfs-back}

abbrev fine : PortAnswers
fine = record {
  mem = true;
  registered = success;
  debugfs = success;
  created = success;
  rate_leaf = success;
}

abbrev all_fine : ℕ → PortAnswers
all_fine i = fine

-- The third port finds no memory.
abbrev third_fails : ℕ → PortAnswers
third_fails i = if i == 2 then record fine { mem = false } else fine

abbrev history : List Op
history =
    configure_vfs 3 all_fine
    ∷ mode_set switchdev third_fails
    ∷ mode_set switchdev all_fine
    ∷ new_port 5 fine
    ∷ del_port 0
    ∷ []

run-port_add_all-IsSound_example : IsSound (run history (port_add_all all_fine 2 new_dev).1)
run-port_add_all-IsSound_example = run-port_add_all-IsSound all_fine 2 history refl

third_port_fails : port_add_all third_fails 3 new_dev ≡ (err enomem, new_dev)
unfolding port_add_all port_del_all add_ports port_add
third_port_fails = refl

-- A device with a PF port and three VFs, in the mode legacy, and one in the mode switchdev with none.
abbrev three_vfs : Dev
three_vfs = record {
  port_list = record { port_index = 0; port_type = pf } ∷ [];
  esw_mode = legacy;
  num_vfs = 3;
  max_vfs = 4;
}

abbrev no_vf : Dev
no_vf = record three_vfs { esw_mode = switchdev; num_vfs = 0 }

three_vfs-IsSound : IsSound three_vfs
unfolding vf_ports vf_ports_of
three_vfs-IsSound = record { ports = refl; room = omega arith; limit = omega arith }

no_vf-IsSound : IsSound no_vf
unfolding vf_ports vf_ports_of stacked
no_vf-IsSound = record { ports = refl; room = omega arith; limit = omega arith }

third_refused : (step (mode_set switchdev third_fails) three_vfs).0 ≡ err enomem
unfolding step eswitch_mode_set esw_switchdev_enable add_ports port_add
third_refused = refl

step-err_example : (step (mode_set switchdev third_fails) three_vfs).1 ≡ three_vfs
step-err_example =
    step-err (mode_set switchdev third_fails) three_vfs enomem refl three_vfs-IsSound third_refused

switched : (eswitch_mode_set switchdev all_fine three_vfs).0 ≡ success
unfolding eswitch_mode_set esw_switchdev_enable add_ports port_add
switched = refl

mode_set-back_example :
    eswitch_mode_set legacy all_fine (eswitch_mode_set switchdev all_fine three_vfs).1
    ≡ (success, three_vfs)
mode_set-back_example = mode_set-back all_fine all_fine three_vfs three_vfs-IsSound refl switched

configured : (drv_configure_vfs 2 all_fine no_vf).0 ≡ success
unfolding drv_configure_vfs esw_switchdev_enable add_ports port_add
configured = refl

configured_back :
    drv_configure_vfs 0 all_fine (drv_configure_vfs 2 all_fine no_vf).1
    ≡ (success, record no_vf { esw_mode = legacy })
configured_back =
    configure_vfs-back 2 all_fine all_fine no_vf no_vf-IsSound refl refl (omega arith) configured

-- The PF port 129 names the port of the second VF: its deletion takes that port.
vf_deleted : drv_port_del pf 129 (eswitch_mode_set switchdev all_fine three_vfs).1 ≡ (
  success,
  record three_vfs {
    port_list =
        record { port_index = 130; port_type = vf }
        ∷ record { port_index = 128; port_type = vf }
        ∷ record { port_index = 0; port_type = pf }
        ∷ [];
    esw_mode = switchdev;
  },
)
unfolding drv_port_del has_index del_index eswitch_mode_set esw_switchdev_enable add_ports port_add
vf_deleted = refl
