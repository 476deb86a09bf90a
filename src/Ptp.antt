-- ===== src/Ptp.antt =====
-- The PTP clocks of ptp/: queues of external timestamps, pins, the number of virtual clocks, and the
-- simulated hardware clock.
pub mod Queue
pub mod Pins
pub mod Vclocks
pub mod Mock
