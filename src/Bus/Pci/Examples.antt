-- ===== src/Bus/Pci/Examples.antt =====
-- Fake devices on a concrete host.
use netdevsim_dkms.Base.{some, [], ◌∷◌}
use netdevsim_dkms.Bus.Pci.{Host}

abbrev host : Host
host = record {
  domain = 0;
  root_number = 9;
  pci_bus_nr = 9;
  fakes = record { bus = 9; device = 0; function = 0; pci_dev = some 70 } ∷ [];
}
