-- ===== src/Bus/Devices.antt =====
-- The devices of the netdevsim bus, netdevsim/bus.c: creation and deletion through the bus
-- attributes, and the end of the bus. What `sscanf` reads and what the kernel answers are arguments,
-- and a device that is unregistered is released at once.
pub mod Lifetime
pub mod Creation
mod Examples
use netdevsim_dkms.Base.{
  ℕ, zero, suc, ◌+◌, ◌-◌, ◌%◌, ◌^◌, Bool, true, false, not, ◌||◌, Option, none, some, List, [], ◌∷◌,
  ◌++◌, einval, ebusy, enoent, enomem, Errno, Result, ok, err, Status, success, ◌==◌, ltb,
  if◌then◌else◌, ℤ, pos, negsuc, ◌≡◌, refl,
}
use netdevsim_dkms.Bus.Pci.{Host, create_fake_pci_device, remove_fake_pci_device}

-- `z + 1` and `z - 1`.
abbrev pub int_inc : ℤ → ℤ
int_inc (pos n) = pos (suc n)
int_inc (negsuc zero) = pos 0
int_inc (negsuc (suc n)) = negsuc n

abbrev pub int_dec : ℤ → ℤ
int_dec (pos zero) = negsuc 0
int_dec (pos (suc n)) = pos n
int_dec (negsuc n) = negsuc (suc n)

pub int_dec-int_inc : (z : ℤ) → int_dec (int_inc z) ≡ z
int_dec-int_inc (pos n) = refl
int_dec-int_inc (negsuc zero) = refl
int_dec-int_inc (negsuc (suc n)) = refl

-- `struct pci_addr`
pub record PciAddr : Type 0 where
  pub domain : ℕ
  pub bus : ℕ
  pub device : ℕ
  pub function : ℕ

-- `struct nsim_bus_dev`
pub record BusDev : Type 0 where
  pub id : ℕ
  pub pci_addr : PciAddr
  pub port_count : ℕ
  pub num_queues : ℕ
  pub max_vfs : ℕ
  pub logical_clk_id : ℤ
  pub wpc : Bool
  pub init : Bool

-- `nsim_bus_enable`, the fake PCI bus, `nsim_bus_dev_list` and the counter `nsim_bus_devs`, which is below 0
-- once it was decremented more often than it was set and incremented.
pub record Bus : Type 0 where
  pub enabled : Bool
  pub host : Host
  pub devices : List BusDev
  pub refs : ℤ

-- The values of a request for a new device; of the address what the second `sscanf` reads.
pub record Request : Type 0 where
  pub id : ℕ
  pub addr : Option PciAddr
  pub clk_id : ℤ
  pub port_count : ℕ
  pub num_queues : ℕ
  pub wpc : ℕ

-- What the calls for a new device meet: whether the device and the fake device are allocated, the
-- kernel's device that the rescan finds, the answers of the id allocator and of `device_register`.
pub record Answers : Type 0 where
  pub mem : Bool
  pub fake_mem : Bool
  pub probed : Option ℕ
  pub ida : Status
  pub registered : Status

abbrev pub int_max : ℕ
int_max = 2147483647

-- The address "0000:00:01.0".
abbrev pub default_addr : PciAddr
default_addr = record { domain = 0; bus = 0; device = 1; function = 0 }

-- The cases of the switch on the number of values, each of which falls through to the next.
abbrev pub from_5 : Request → Request
from_5 r = record r { wpc = 0 }

abbrev pub from_4 : Request → Request
from_4 r = from_5 (record r { num_queues = 1 })

abbrev pub from_3 : Request → Request
from_3 r = from_4 (record r { port_count = 1 })

abbrev pub from_2 : Request → Request
from_2 r = from_3 (record r { clk_id = negsuc 0 })

abbrev pub from_1 : Request → Request
from_1 r = from_2 (record r { addr = some default_addr })

-- The values of a request of which the first `n` are given; `none` is a wrong format or id.
unfoldable pub request_of : ℕ → Request → Option Request
request_of n r =
    if ltb int_max r.id
    then none
    else if n == 1
    then some (from_1 r)
    else if n == 2
    then some (from_2 r)
    else if n == 3
    then some (from_3 r)
    else if n == 4
    then some (from_4 r)
    else if n == 5
    then some (from_5 r)
    else if n == 6
    then some r
    else none

unfoldable pub parse_pci_address : Option PciAddr → Result PciAddr
parse_pci_address none = err einval
parse_pci_address (some a) =
    if ltb 255 a.bus || ltb 31 a.device || ltb 7 a.function
    then err einval
    else ok (record {
      domain = a.domain % 2 ^ 16;
      bus = a.bus % 2 ^ 8;
      device = a.device % 2 ^ 8;
      function = a.function % 2 ^ 8;
    })

abbrev pub max_vfs : ℕ
max_vfs = 4

abbrev pub bus_dev_of : Request → PciAddr → BusDev
bus_dev_of r a = record {
  id = r.id;
  pci_addr = a;
  port_count = r.port_count;
  num_queues = r.num_queues;
  max_vfs = max_vfs;
  logical_clk_id = r.clk_id;
  wpc = not (r.wpc == 0);
  init = false;
}

-- `none` is the read of the address of a device that is freed or NULL, on the paths behind the two
-- last calls.
unfoldable pub bus_dev_new : Answers → Request → Host → Option (Result BusDev × Host)
bus_dev_new ans r h =
    if not ans.mem then some (err enomem, h) else elim (parse_pci_address r.addr) [
      | err e ↦ some (err e, h)
      | ok a ↦
          let (s, h') =
            create_fake_pci_device ans.fake_mem ans.probed a.domain a.bus a.device a.function h in
          elim s [
            | err e ↦ some (err e, h')
            | ok u ↦ elim ans.ida [
              | err e ↦ none
              | ok v ↦ elim ans.registered [ err e ↦ none | ok w ↦ some (ok (bus_dev_of r a), h') ]
            ]
          ]
    ]

-- `new_device_store`
unfoldable pub new_device : Answers → ℕ → Request → Bus → Option (Status × Bus)
new_device ans n r b = elim (request_of n r) [
  | none ↦ some (err einval, b)
  | some r' ↦ if not b.enabled then some (err ebusy, b) else elim (bus_dev_new ans r' b.host) [
    | none ↦ none
    | some (err e, h) ↦ some (err e, record b { host = h })
    | some (ok d, h) ↦ some (
      success,
      record b {
        host = h;
        devices = b.devices ++ record d { init = true } ∷ [];
        refs = int_inc b.refs;
      },
    )
  ]
]

-- `nsim_bus_dev_del` on a bus whose list does not have the device any more; a failure to remove the
-- fake device is only logged.
unfoldable pub bus_dev_del : BusDev → Bus → Bus
bus_dev_del d b =
    let a = d.pci_addr in
    record b {
      host = (remove_fake_pci_device a.domain a.bus a.device a.function b.host).1;
      refs = int_dec b.refs;
    }

unfoldable pub find_device : ℕ → List BusDev → Option BusDev
find_device i [] = none
find_device i (d ∷ ds) = if d.id == i then some d else find_device i ds

unfoldable pub delete_device : ℕ → List BusDev → List BusDev
delete_device i [] = []
delete_device i (d ∷ ds) = if d.id == i then ds else d ∷ delete_device i ds

-- `del_device_store`; `none` is a text that is no number.
unfoldable pub del_device : Option ℕ → Bus → Status × Bus
del_device none b = (err einval, b)
del_device (some i) b =
    if ltb int_max i
    then (err einval, b)
    else if not b.enabled
    then (err ebusy, b)
    else elim (find_device i b.devices) [
      | none ↦ (err enoent, b)
      | some d ↦ (success, bus_dev_del d (record b { devices = delete_device i b.devices }))
    ]

-- The loop of `nsim_bus_exit`.
unfoldable pub delete_all : List BusDev → Bus → Bus
delete_all [] b = b
delete_all (d ∷ ds) b = delete_all ds (bus_dev_del d (record b { devices = ds }))

-- `nsim_bus_exit` up to the wait for the counter.
unfoldable pub bus_exit : Bus → Bus
bus_exit b = delete_all b.devices (record b { enabled = false; refs = int_dec b.refs })

-- A bus after `nsim_bus_init`.
unfoldable pub bus_init : Host → Bus
bus_init h = record { enabled = true; host = h; devices = []; refs = pos 1 }

-- The writes to the two bus attributes.
pub data Call : Type 0 where
  create : Answers → ℕ → Request → Call
  delete : Option ℕ → Call

-- A history of calls, the first one first; `none` if one of them reads freed memory.
unfoldable pub run : List Call → Bus → Option Bus
run [] b = some b
run (create ans n r ∷ cs) b = elim (new_device ans n r b) [ none ↦ none | some (s, b') ↦ run cs b' ]
run (delete i ∷ cs) b = run cs (del_device i b).1
