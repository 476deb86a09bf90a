-- ===== src/Wpc/Setup/Examples.antt =====
-- Runs of the set-up of the DPLL of netdevsim/dpll.c on concrete inputs.
use netdevsim_dkms.Base.{
  ◌≡◌, refl, true, some, [], ◌∷◌, einval, enomem, err, Status, success, if◌then◌else◌,
}
use netdevsim_dkms.Wpc.Setup.{
  DpllStage, holdover_timer, port_registered, sysfs_kobj, same_dpll_stage, gnss_init, dpll_init,
  dpll_exit_all,
}
use netdevsim_dkms.Wpc.Setup.Backing.{dpll_init-err, dpll_exit-dpll_init}

-- The pin of the second port cannot be registered.
abbrev second_port_fails : DpllStage → Status
second_port_fails s = if same_dpll_stage s (port_registered 1) then err einval else success

-- There is no memory for the directory of the file.
abbrev no_directory : DpllStage → Status
no_directory s = if same_dpll_stage s sysfs_kobj then err enomem else success

abbrev all_fine : DpllStage → Status
all_fine s = success

init_refused : (dpll_init 2 true second_port_fails).0 ≡ err einval
unfolding dpll_init gnss_init
init_refused = refl

dpll_init-err_example : (dpll_init 2 true second_port_fails).1 ≡ some []
unfolding dpll_init gnss_init
dpll_init-err_example = dpll_init-err 2 true second_port_fails einval init_refused

-- The holdover timer is left armed, on a DPLL that is freed.
timer_left : dpll_init 2 true no_directory ≡ (err enomem, some (holdover_timer ∷ []))
unfolding dpll_init gnss_init
timer_left = refl

init_succeeds : (dpll_init 2 true all_fine).0 ≡ success
unfolding dpll_init gnss_init
init_succeeds = refl

dpll_exit-dpll_init_example : dpll_exit_all 2 (dpll_init 2 true all_fine).1 ≡ some []
dpll_exit-dpll_init_example = dpll_exit-dpll_init 2 true all_fine init_succeeds
