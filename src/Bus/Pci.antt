-- ===== src/Bus/Pci.antt =====
-- The fake PCI devices of netdevsim/fakepci.c, once `fakepci_init` has made the root bus. What the
-- kernel's rescan of the bus finds for a new device is an argument.
pub mod Tracking
mod Examples
use netdevsim_dkms.Base.{
  ℕ, ◌+◌, ◌*◌, Bool, true, false, not, ◌&&◌, Option, none, some, List, [], ◌∷◌, enodev, eexist,
  enomem, ok, err, Status, success, ◌==◌, ltb, if◌then◌else◌, get_or, set, replicate,
}

-- `struct fake_pci_device`; `pci_dev` is the kernel's device, if it was probed.
pub record FakeDevice : Type 0 where
  pub bus : ℕ
  pub device : ℕ
  pub function : ℕ
  pub pci_dev : Option ℕ

-- The root bus, the number given to or found by the module, and the list of devices.
pub record Host : Type 0 where
  pub domain : ℕ
  pub root_number : ℕ
  pub pci_bus_nr : ℕ
  pub fakes : List FakeDevice

abbrev pub same_address : ℕ → ℕ → ℕ → FakeDevice → Bool
same_address bus device function f =
    (f.bus == bus) && (f.device == device) && (f.function == function)

unfoldable pub find_fake_device : ℕ → ℕ → ℕ → List FakeDevice → Option FakeDevice
find_fake_device bus device function [] = none
find_fake_device bus device function (f ∷ fs) =
    if same_address bus device function f then some f else find_fake_device bus device function fs

-- A write to the `pci_dev` of the device that the search finds.
unfoldable pub set_pci_dev : ℕ → ℕ → ℕ → Option ℕ → List FakeDevice → List FakeDevice
set_pci_dev bus device function v [] = []
set_pci_dev bus device function v (f ∷ fs) =
    if same_address bus device function f
    then record f { pci_dev = v } ∷ fs
    else f ∷ set_pci_dev bus device function v fs

-- `list_del` of the device that the search finds.
unfoldable pub delete_fake : ℕ → ℕ → ℕ → List FakeDevice → List FakeDevice
delete_fake bus device function [] = []
delete_fake bus device function (f ∷ fs) =
    if same_address bus device function f then fs else f ∷ delete_fake bus device function fs

-- `pdev` is the kernel's device.
unfoldable pub fake_pci_probe : ℕ → ℕ → ℕ → ℕ → List FakeDevice → List FakeDevice
fake_pci_probe bus device function pdev fs = set_pci_dev bus device function (some pdev) fs

unfoldable pub fake_pci_remove : ℕ → ℕ → ℕ → List FakeDevice → List FakeDevice
fake_pci_remove bus device function fs = set_pci_dev bus device function none fs

-- The rescan of the bus, which probes the new device or does not.
unfoldable pub rescan : ℕ → ℕ → ℕ → Option ℕ → List FakeDevice → List FakeDevice
rescan bus device function none fs = fs
rescan bus device function (some pdev) fs = fake_pci_probe bus device function pdev fs

unfoldable pub track : Bool → Option ℕ → ℕ → ℕ → Host → Status × Host
track mem probed device function h = if not mem then (err enomem, h) else (
  success,
  record h {
    fakes = rescan h.root_number device function probed (
        record { bus = h.root_number; device = device; function = function; pci_dev = none }
        ∷ h.fakes);
  },
)

abbrev pub has_fake : ℕ → ℕ → ℕ → List FakeDevice → Bool
has_fake bus device function fs = elim (find_fake_device bus device function fs) [
  | none ↦ false
  | some f ↦ true
]

unfoldable pub create_fake_pci_device : Bool → Option ℕ → ℕ → ℕ → ℕ → ℕ → Host → Status × Host
unfolding track
create_fake_pci_device mem probed domain bus device function h =
    if not (domain == h.domain)
    then (err enodev, h)
    else if not (bus == h.pci_bus_nr)
    then (err enodev, h)
    else if not (function == 0) && not (has_fake bus device 0 h.fakes)
    then (err enodev, h)
    else if has_fake bus device function h.fakes
    then (err eexist, h)
    else track mem probed device function h

-- The kernel's device goes with the fake one.
unfoldable pub remove_fake_pci_device : ℕ → ℕ → ℕ → ℕ → Host → Status × Host
remove_fake_pci_device domain bus device function h =
    if not (domain == h.domain)
    then (err enodev, h)
    else if not (bus == h.pci_bus_nr)
    then (err enodev, h)
    else elim (find_fake_device bus device function h.fakes) [
      | none ↦ (err enodev, h)
      | some f ↦
          let fs = delete_fake bus device function h.fakes in
          elim f.pci_dev [
            | none ↦ (success, record h { fakes = fs })
            | some pdev ↦ (success, record h { fakes = fake_pci_remove bus device function fs })
          ]
    ]

abbrev pub pci_cfg_space_size : ℕ
pci_cfg_space_size = 256

-- The return codes of the two accesses.
pub data PciStatus : Type 0 where
  successful device_not_found bad_register_number : PciStatus

-- The bytes of a number in the configuration space, the lowest first.
abbrev pub set_u16 : ℕ → ℕ → ℕ → List ℕ → List ℕ
set_u16 i lo hi cfg = set (set cfg i lo) (i + 1) hi

abbrev pub u16_at : List ℕ → ℕ → ℕ
u16_at cfg i = get_or cfg i 0 + 256 * get_or cfg (i + 1) 0

-- `init_fake_pci_devices_config`; the kernel's constants are 0x0003 for the command, 0x0010 for the
-- status, 0x0200 for the class and 0x80 for the header.
unfoldable pub init_config : List ℕ
init_config =
    let ids = set_u16 2 85 85 (set_u16 0 54 27 (replicate pci_cfg_space_size 0)) in
    let state = set_u16 6 16 0 (set_u16 4 3 0 ids) in
    let class = set_u16 10 0 2 (set (set state 8 1) 9 0) in
    let header = set (set (set (set class 12 16) 13 0) 14 128) 15 0 in
    let subsystem = set_u16 46 85 85 (set_u16 44 54 27 header) in set (set subsystem 60 0) 61 1

-- The value of an access of 1, 2 or 4 bytes; `none` is an access beyond the configuration space.
unfoldable pub config_read : List ℕ → ℕ → ℕ → Option (PciStatus × ℕ)
config_read cfg place size =
    if size == 1
    then some (successful, get_or cfg place 0)
    else if size == 2
    then if ltb (place + 1) pci_cfg_space_size then some (successful, u16_at cfg place) else none
    else if size == 4
    then if ltb (place + 3) pci_cfg_space_size
      then some (successful, u16_at cfg place + 65536 * u16_at cfg (place + 2))
      else none
    else some (bad_register_number, 0)

unfoldable pub bridge_read_op :
    List ℕ → ℕ → ℕ → ℕ → ℕ → ℕ → List FakeDevice → Option (PciStatus × ℕ)
bridge_read_op cfg bus device function place size fs =
    if not (has_fake bus device function fs)
    then some (device_not_found, 4294967295)
    else if not (ltb place pci_cfg_space_size)
    then some (bad_register_number, 0)
    else config_read cfg place size

-- A write is accepted and not stored.
unfoldable pub bridge_write_op : ℕ → ℕ → ℕ → ℕ → List FakeDevice → PciStatus
bridge_write_op bus device function place fs =
    if not (has_fake bus device function fs)
    then device_not_found
    else if not (ltb place pci_cfg_space_size)
    then bad_register_number
    else successful
