-- ===== src/Dpll.antt =====
-- The DPLL subsystem: the devices and pins of dpll/dpll_core.c, and the setters and searches of
-- dpll/dpll_netlink.c.
pub mod Refs
pub mod Device
pub mod Pin
pub mod Setting
pub mod Searching
