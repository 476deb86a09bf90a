-- ===== src/Bus.antt =====
-- The netdevsim bus of netdevsim/bus.c and the fake PCI devices under it, netdevsim/fakepci.c.
pub mod Peers
pub mod Pci
pub mod Devices
