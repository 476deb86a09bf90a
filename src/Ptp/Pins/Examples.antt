-- ===== src/Ptp/Pins/Examples.antt =====
-- The pins of the simulated clock of ptp/ptp_mock.c.
use netdevsim_dkms.Base.{◌≤◌, false, [], ◌∷◌, arith, count}
use netdevsim_dkms.Ptp.Pins.{pf_extts, PinConfig, has_function, unused_pin, set_pinfunc}
use netdevsim_dkms.Ptp.Pins.Owners.{set_pinfunc-exclusive}

abbrev mock_pins : PinConfig
mock_pins = record {
  pins =
      record { func = pf_extts; chan = 0 } ∷ unused_pin ∷ unused_pin ∷ unused_pin ∷ unused_pin ∷ [];
  n_ext_ts = 1;
  n_per_out = 0;
}

set_pinfunc-exclusive_example :
    count (has_function pf_extts 0) (set_pinfunc false 1 pf_extts 0 mock_pins).1.pins ≤ 1
set_pinfunc-exclusive_example =
    set_pinfunc-exclusive false 1 pf_extts 0 pf_extts 0 mock_pins (omega arith)
      (λ e. omega (arith, e)) (omega arith)
