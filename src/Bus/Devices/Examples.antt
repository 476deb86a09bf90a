-- ===== src/Bus/Devices/Examples.antt =====
-- Devices on a concrete bus.
use netdevsim_dkms.Base.{◌≡◌, refl, true, false, some, [], ◌∷◌, success, pos, suc, length}
use netdevsim_dkms.Bus.Pci.{
  Host, create_fake_pci_device, find_fake_device, track, rescan, fake_pci_probe, set_pci_dev,
}
use netdevsim_dkms.Bus.Devices.{
  PciAddr, Bus, Request, Answers, create, delete, request_of, parse_pci_address, bus_dev_new,
  new_device, del_device, find_device, bus_init, bus_exit, run,
}
use netdevsim_dkms.Bus.Devices.Lifetime.{bus_exit-run}
use netdevsim_dkms.Bus.Devices.Creation.{del_device-new_device}

abbrev host : Host
host = record { domain = 0; root_number = 9; pci_bus_nr = 9; fakes = [] }

abbrev slot : PciAddr
slot = record { domain = 0; bus = 9; device = 1; function = 0 }

abbrev eth : Request
eth = record { id = 4; addr = some slot; clk_id = pos 2; port_count = 3; num_queues = 1; wpc = 0 }

abbrev calm : Answers
calm = record { mem = true; fake_mem = true; probed = some 71; ida = success; registered = success }

abbrev one_device : Bus
one_device = bus_init host

-- The state after one device has been made.
abbrev made : Bus
made = record {
  enabled = true;
  host = record host {
    fakes = record { bus = 9; device = 1; function = 0; pci_dev = some 71 } ∷ [];
  };
  devices =
      record {
        id = 4;
        pci_addr = slot;
        port_count = 3;
        num_queues = 1;
        max_vfs = 4;
        logical_clk_id = pos 2;
        wpc = false;
        init = true;
      }
      ∷ [];
  refs = pos 2;
}

del_device-new_device_example : del_device (some 4) made ≡ (success, bus_init host)
unfolding new_device bus_dev_new request_of parse_pci_address create_fake_pci_device
    find_fake_device track bus_init find_device rescan fake_pci_probe set_pci_dev
del_device-new_device_example = del_device-new_device calm 6 eth (bus_init host) made refl refl refl

bus_exit-run_example :
    (made.refs ≡ pos (suc (length made.devices)))
    × ((bus_exit made).refs ≡ pos 0)
    × ((bus_exit made).devices ≡ [])
unfolding new_device bus_dev_new request_of parse_pci_address create_fake_pci_device
    find_fake_device track bus_init run del_device find_device rescan fake_pci_probe set_pci_dev
bus_exit-run_example = bus_exit-run (create calm 6 eth ∷ delete (some 5) ∷ []) host made refl
