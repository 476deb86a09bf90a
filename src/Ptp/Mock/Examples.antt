-- ===== src/Ptp/Mock/Examples.antt =====
-- The simulated clock at concrete readings.
use netdevsim_dkms.Base.{true}
use netdevsim_dkms.Ptp.Mock.{MockPhc}

-- A clock that gains half a second in a second, read last at 3000 ns.
abbrev fast : MockPhc
fast = record {
  offset_ns = 500;
  freq_ppb = 500000000;
  last_mono_ns = 3000;
  extts_enabled = true;
  extts_channel = 0;
  last_extts_sec = 6;
  extts_delay_ms = 200;
}
