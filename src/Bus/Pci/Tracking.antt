-- ===== src/Bus/Pci/Tracking.antt =====
-- The list of fake devices, and what a scan of the bus sees of it.
use netdevsim_dkms.Base.{ℕ, ◌*◌, ◌≡◌, refl, Bool, Option, none, some, List, [], ◌∷◌, arith, success}
use netdevsim_dkms.Bus.Pci.{
  FakeDevice, Host, find_fake_device, set_pci_dev, delete_fake, fake_pci_probe, fake_pci_remove,
  rescan, track, create_fake_pci_device, remove_fake_pci_device, successful, config_read,
  bridge_read_op, init_config,
}

set_pci_dev-none :
    (bus device function : ℕ) (v : Option ℕ) (fs : List FakeDevice)
    → find_fake_device bus device function fs ≡ none
    → set_pci_dev bus device function v fs ≡ fs
unfolding find_fake_device set_pci_dev
set_pci_dev-none bus device function v [] h = refl
set_pci_dev-none bus device function v (f ∷ fs) h =
    ground (arith, set_pci_dev-none bus device function v fs)

-- Where the root bus has the module's number, a `remove_fake_pci_device` after a
-- `create_fake_pci_device` that succeeded restores the list, whether the kernel probed the device or
-- not.
pub remove-create :
    (mem : Bool) (probed : Option ℕ) (domain bus device function : ℕ) (h : Host)
    → h.root_number ≡ h.pci_bus_nr
    → (create_fake_pci_device mem probed domain bus device function h).0 ≡ success
    → remove_fake_pci_device domain bus device function
        (create_fake_pci_device mem probed domain bus device function h).1
      ≡ (success, h)
unfolding create_fake_pci_device track remove_fake_pci_device find_fake_device delete_fake rescan
    fake_pci_probe set_pci_dev fake_pci_remove
remove-create mem none domain bus device function h same done = ground arith
remove-create mem (some p) domain bus device function h same done =
    ground (arith, set_pci_dev-none bus device function none h.fakes)

-- Where the root bus has the module's number, the kernel finds a device that has been created: it
-- reads Red Hat's vendor id and the device id.
pub bridge_read_op-create :
    (mem : Bool) (probed : Option ℕ) (domain bus device function : ℕ) (h : Host)
    → h.root_number ≡ h.pci_bus_nr
    → (create_fake_pci_device mem probed domain bus device function h).0 ≡ success
    → let fs = (create_fake_pci_device mem probed domain bus device function h).1.fakes in
      bridge_read_op init_config bus device function 0 4 fs ≡ some (successful, 1431640886)
unfolding create_fake_pci_device track bridge_read_op find_fake_device rescan fake_pci_probe
    set_pci_dev config_read init_config
bridge_read_op-create mem none domain bus device function h same done = ground arith
bridge_read_op-create mem (some p) domain bus device function h same done = ground arith

-- An access of 1, 2 or 4 bytes at a multiple of its size, as the kernel makes them, stays inside the
-- configuration space, at whatever place and device.
pub bridge_read_op-aligned :
    (cfg : List ℕ) (bus device function place half : ℕ) (fs : List FakeDevice)
    → (¬ (bridge_read_op cfg bus device function place 1 fs ≡ none))
      × (¬ (bridge_read_op cfg bus device function (2 * half) 2 fs ≡ none))
      × (¬ (bridge_read_op cfg bus device function (4 * half) 4 fs ≡ none))
unfolding bridge_read_op config_read
bridge_read_op-aligned cfg bus device function place half fs = ground arith
