-- ===== src/Dev/Life/Examples.antt =====
-- Runs of the life of a device of netdevsim/dev.c on concrete inputs.
use netdevsim_dkms.Base.{
  ◌≡◌, refl, true, false, some, List, [], ◌∷◌, enomem, err, Status, success, if◌then◌else◌,
}
use netdevsim_dkms.Dev.Life.{Stage, hwstats, same_stage, drv_probe}
use netdevsim_dkms.Dev.Life.Backing.{drv_probe-err}
use netdevsim_dkms.Dev.Life.Reloading.{
  Request, reload, reloads, removed, has_dpll, probed_device, drv_remove-reloads, reload-dpll,
}

abbrev all_fine : Stage → Status
all_fine s = success

abbrev hwstats_fail : Stage → Status
hwstats_fail s = if same_stage s hwstats then err enomem else success

probe_refused : (drv_probe true true hwstats_fail).0 ≡ err enomem
unfolding drv_probe
probe_refused = refl

drv_probe-err_example : (drv_probe true true hwstats_fail).1 ≡ some []
drv_probe-err_example = drv_probe-err true true hwstats_fail enomem probe_refused

probe_succeeds : (drv_probe true true all_fine).0 ≡ success
unfolding drv_probe
probe_succeeds = refl

-- A reload that fails at the statistics, one that is refused and one that succeeds.
abbrev requests : List Request
requests =
    record { dont_allow_reload = false; fail_reload = false; answers = hwstats_fail }
    ∷ record { dont_allow_reload = true; fail_reload = false; answers = all_fine }
    ∷ record { dont_allow_reload = false; fail_reload = false; answers = all_fine }
    ∷ []

drv_remove-reloads_example :
    removed true (reloads requests (probed_device true true all_fine)) ≡ some []
drv_remove-reloads_example = drv_remove-reloads true true all_fine requests probe_succeeds

reload-dpll_example :
    (has_dpll (probed_device true true all_fine) ≡ true)
    × (has_dpll (reload false false all_fine (probed_device true true all_fine)) ≡ false)
reload-dpll_example = reload-dpll true false all_fine all_fine probe_succeeds
