-- ===== src/Dev/Life/Backing.antt =====
-- How `nsim_drv_probe` and `nsim_dev_reload_create` of netdevsim/dev.c back out, and what they hold when
-- they succeed.
use netdevsim_dkms.Base.{
  ◌≡◌, refl, Bool, true, false, some, List, [], ◌∷◌, Errno, err, Status, success, if◌then◌else◌,
}
use netdevsim_dkms.Dev.Stages.{BacksOut, all_held, set_up-err, set_up-ok}
use netdevsim_dkms.Dev.Life.{
  Stage, fake_pci_dev, devlink, vfconfigs, registered, resources, params, dummy_region, traps,
  debugfs, fib, health, bpf_dev, psample, hwstats, ports, probe_stages, create_stages, drv_probe,
  reload_create,
}

-- What a device holds that no reload gives up, on top of the rest.
abbrev pub kept_stages : Bool → List Stage
kept_stages true = params ∷ resources ∷ registered ∷ vfconfigs ∷ devlink ∷ fake_pci_dev ∷ []
kept_stages false = params ∷ resources ∷ registered ∷ vfconfigs ∷ devlink ∷ []

abbrev pub probed_stages : Bool → Bool → List Stage
probed_stages pci wpc = all_held (probe_stages pci wpc) (if pci then fake_pci_dev ∷ [] else [])

probe-BacksOut :
    (pci wpc : Bool) → BacksOut (probe_stages pci wpc) (if pci then fake_pci_dev ∷ [] else []) []
unfolding BacksOut
probe-BacksOut true true = (
  refl,
  (
    refl,
    (
      refl,
      (
        refl,
        (refl, (refl, (refl, (refl, (refl, (refl, (refl, (refl, (refl, (refl, (refl, tt))))))))))),
      ),
    ),
  ),
)
probe-BacksOut true false = (
  refl,
  (
    refl,
    (
      refl,
      (refl, (refl, (refl, (refl, (refl, (refl, (refl, (refl, (refl, (refl, (refl, tt))))))))))),
    ),
  ),
)
probe-BacksOut false true = (
  refl,
  (
    refl,
    (
      refl,
      (
        refl,
        (refl, (refl, (refl, (refl, (refl, (refl, (refl, (refl, (refl, (refl, (refl, tt))))))))))),
      ),
    ),
  ),
)
probe-BacksOut false false = (
  refl,
  (
    refl,
    (
      refl,
      (refl, (refl, (refl, (refl, (refl, (refl, (refl, (refl, (refl, (refl, (refl, tt))))))))))),
    ),
  ),
)

-- A probe that fails, at whatever step, leaves nothing held, and on its way out releases only what it
-- holds; with and without a fake PCI device and a DPLL.
pub drv_probe-err :
    (pci wpc : Bool) (a : Stage → Status) (e : Errno)
    → (drv_probe pci wpc a).0 ≡ err e
    → (drv_probe pci wpc a).1 ≡ some []
unfolding drv_probe
drv_probe-err pci wpc a e h =
    set_up-err (probe_stages pci wpc) a (if pci then fake_pci_dev ∷ [] else []) [] e
      (probe-BacksOut pci wpc) h

pub drv_probe-ok :
    (pci wpc : Bool) (a : Stage → Status)
    → (drv_probe pci wpc a).0 ≡ success
    → (drv_probe pci wpc a).1 ≡ some (probed_stages pci wpc)
unfolding drv_probe
drv_probe-ok pci wpc a h =
    set_up-ok (probe_stages pci wpc) a (if pci then fake_pci_dev ∷ [] else []) h

-- What a device holds after a reload that failed, and after one that did not.
abbrev pub bare_stages : Bool → List Stage
bare_stages pci = bpf_dev ∷ debugfs ∷ kept_stages pci

abbrev pub reloaded_stages : Bool → List Stage
reloaded_stages pci =
    ports ∷ hwstats ∷ psample ∷ health ∷ fib ∷ traps ∷ dummy_region ∷ bare_stages pci

create-BacksOut : (pci : Bool) → BacksOut create_stages (bare_stages pci) (bare_stages pci)
unfolding BacksOut
create-BacksOut pci = (refl, (refl, (refl, (refl, (refl, (refl, (refl, tt)))))))

pub reload_create-err :
    (pci : Bool) (a : Stage → Status) (e : Errno)
    → (reload_create a (bare_stages pci)).0 ≡ err e
    → (reload_create a (bare_stages pci)).1 ≡ some (bare_stages pci)
unfolding reload_create
reload_create-err pci a e h =
    set_up-err create_stages a (bare_stages pci) (bare_stages pci) e (create-BacksOut pci) h

pub reload_create-ok :
    (pci : Bool) (a : Stage → Status)
    → (reload_create a (bare_stages pci)).0 ≡ success
    → (reload_create a (bare_stages pci)).1 ≡ some (reloaded_stages pci)
unfolding reload_create
reload_create-ok pci a h = set_up-ok create_stages a (bare_stages pci) h
