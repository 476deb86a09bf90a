-- ===== src/Dev/Life.antt =====
-- The life of a device of netdevsim/dev.c: what `nsim_drv_probe` acquires and how it backs out, what a
-- reload of devlink gives up and takes again, and what `nsim_drv_remove` releases. What the callees answer
-- is an argument. That a reload also takes away the VFs is left out here.
pub mod Backing
pub mod Reloading
mod Examples
use netdevsim_dkms.Base.{
  ℕ, Bool, true, false, Option, none, some, List, [], ◌∷◌, eopnotsupp, einval, Result, ok, err,
  Status, success, ◌==◌, if◌then◌else◌,
}
use netdevsim_dkms.Dev.Stages.{is_held, release, set_up}

-- What a device holds.
pub data Stage : Type 0 where
  fake_pci_dev devlink vfconfigs registered resources params dummy_region : Stage
  traps debugfs fib health bpf_dev psample hwstats ports dpll : Stage

abbrev rank : Stage → ℕ
rank fake_pci_dev = 0
rank devlink = 1
rank vfconfigs = 2
rank registered = 3
rank resources = 4
rank params = 5
rank dummy_region = 6
rank traps = 7
rank debugfs = 8
rank fib = 9
rank health = 10
rank bpf_dev = 11
rank psample = 12
rank hwstats = 13
rank ports = 14
rank dpll = 15

abbrev pub same_stage : Stage → Stage → Bool
same_stage s t = rank s == rank t

abbrev pub give_up : Stage → Option (List Stage) → Option (List Stage)
give_up s h = release same_stage s h

-- The labels of `nsim_drv_probe`; `pci` says whether the fake PCI device was found.
module _ (pci : Bool) where
  abbrev err_put_pci_dev : Option (List Stage) → Option (List Stage)
  err_put_pci_dev h = if pci then give_up fake_pci_dev h else h

  abbrev err_devlink_unlock : Option (List Stage) → Option (List Stage)
  err_devlink_unlock h = err_put_pci_dev (give_up devlink h)

  abbrev err_vfc_free : Option (List Stage) → Option (List Stage)
  err_vfc_free h = err_devlink_unlock (give_up vfconfigs h)

  abbrev err_dl_unregister : Option (List Stage) → Option (List Stage)
  err_dl_unregister h = err_vfc_free (give_up registered h)

  abbrev err_resource_unregister : Option (List Stage) → Option (List Stage)
  err_resource_unregister h = err_dl_unregister (give_up resources h)

  abbrev err_params_unregister : Option (List Stage) → Option (List Stage)
  err_params_unregister h = err_resource_unregister (give_up params h)

  abbrev err_dummy_region_exit : Option (List Stage) → Option (List Stage)
  err_dummy_region_exit h = err_params_unregister (give_up dummy_region h)

  abbrev err_traps_exit : Option (List Stage) → Option (List Stage)
  err_traps_exit h = err_dummy_region_exit (give_up traps h)

  abbrev err_debugfs_exit : Option (List Stage) → Option (List Stage)
  err_debugfs_exit h = err_traps_exit (give_up debugfs h)

  abbrev err_fib_destroy : Option (List Stage) → Option (List Stage)
  err_fib_destroy h = err_debugfs_exit (give_up fib h)

  abbrev err_health_exit : Option (List Stage) → Option (List Stage)
  err_health_exit h = err_fib_destroy (give_up health h)

  abbrev err_bpf_dev_exit : Option (List Stage) → Option (List Stage)
  err_bpf_dev_exit h = err_health_exit (give_up bpf_dev h)

  abbrev err_psample_exit : Option (List Stage) → Option (List Stage)
  err_psample_exit h = err_bpf_dev_exit (give_up psample h)

  abbrev err_hwstats_exit : Option (List Stage) → Option (List Stage)
  err_hwstats_exit h = err_psample_exit (give_up hwstats h)

  abbrev err_port_del_all : Option (List Stage) → Option (List Stage)
  err_port_del_all h = err_hwstats_exit (give_up ports h)

  -- The stages of `nsim_drv_probe`, each with the label that it jumps to.
  abbrev pub probe_stages : Bool → List (Stage × (Option (List Stage) → Option (List Stage)))
  probe_stages wpc =
      (devlink, err_put_pci_dev)
      ∷ (vfconfigs, err_devlink_unlock)
      ∷ (registered, err_vfc_free)
      ∷ (resources, err_dl_unregister)
      ∷ (params, err_resource_unregister)
      ∷ (dummy_region, err_params_unregister)
      ∷ (traps, err_dummy_region_exit)
      ∷ (debugfs, err_traps_exit)
      ∷ (fib, err_debugfs_exit)
      ∷ (health, err_fib_destroy)
      ∷ (bpf_dev, err_health_exit)
      ∷ (psample, err_bpf_dev_exit)
      ∷ (hwstats, err_psample_exit)
      ∷ (ports, err_hwstats_exit)
      ∷ (if wpc then (dpll, err_port_del_all) ∷ [] else [])

unfoldable pub drv_probe : Bool → Bool → (Stage → Status) → Status × Option (List Stage)
drv_probe pci wpc a = set_up (probe_stages pci wpc) a (if pci then fake_pci_dev ∷ [] else [])

-- The labels of `nsim_dev_reload_create`.
abbrev reload_region_exit : Option (List Stage) → Option (List Stage)
reload_region_exit h = give_up dummy_region h

abbrev reload_traps_exit : Option (List Stage) → Option (List Stage)
reload_traps_exit h = reload_region_exit (give_up traps h)

abbrev reload_fib_destroy : Option (List Stage) → Option (List Stage)
reload_fib_destroy h = reload_traps_exit (give_up fib h)

abbrev reload_health_exit : Option (List Stage) → Option (List Stage)
reload_health_exit h = reload_fib_destroy (give_up health h)

abbrev reload_psample_exit : Option (List Stage) → Option (List Stage)
reload_psample_exit h = reload_health_exit (give_up psample h)

abbrev reload_hwstats_exit : Option (List Stage) → Option (List Stage)
reload_hwstats_exit h = reload_psample_exit (give_up hwstats h)

-- Its stages, each with the label that it jumps to.
abbrev pub create_stages : List (Stage × (Option (List Stage) → Option (List Stage)))
create_stages =
    (dummy_region, λ h. h)
    ∷ (traps, reload_region_exit)
    ∷ (fib, reload_traps_exit)
    ∷ (health, reload_fib_destroy)
    ∷ (psample, reload_health_exit)
    ∷ (hwstats, reload_psample_exit)
    ∷ (ports, reload_hwstats_exit)
    ∷ []

unfoldable pub reload_create : (Stage → Status) → List Stage → Status × Option (List Stage)
reload_create a held = set_up create_stages a held

-- `nsim_dpll_exit`, which does nothing without a DPLL.
abbrev dpll_exit : List Stage → Option (List Stage)
dpll_exit held = if is_held same_stage dpll held then give_up dpll (some held) else some held

-- `reload_failed` is what `devlink_is_reload_failed` answers.
unfoldable pub reload_destroy : Bool → List Stage → Option (List Stage)
reload_destroy reload_failed held =
    if reload_failed
    then some held
    else give_up dummy_region (
        give_up traps (
          give_up fib
            (give_up health (give_up psample (give_up hwstats (give_up ports (dpll_exit held)))))))

unfoldable pub drv_remove : Bool → Bool → List Stage → Option (List Stage)
drv_remove pci reload_failed held =
    let rest = give_up vfconfigs (
      give_up registered (
        give_up resources (
          give_up params
            (give_up debugfs (give_up bpf_dev (reload_destroy reload_failed held)))))) in
    give_up devlink (if pci then give_up fake_pci_dev rest else rest)

unfoldable pub reload_down : Bool → Bool → List Stage → Status × Option (List Stage)
reload_down dont_allow_reload reload_failed held =
    if dont_allow_reload
    then (err eopnotsupp, some held)
    else (success, reload_destroy reload_failed held)

unfoldable pub reload_up : Bool → (Stage → Status) → List Stage → Status × Option (List Stage)
reload_up fail_reload a held = if fail_reload then (err einval, some held) else reload_create a held
