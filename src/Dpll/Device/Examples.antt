-- ===== src/Dpll/Device/Examples.antt =====
-- The theorems about DPLL devices at concrete ones.
use netdevsim_dkms.Base.{◌≡◌, refl, true, false, none, some, [], ◌∷◌, arith, eexist, err}
use netdevsim_dkms.Dpll.Device.{
  Device, DeviceOps, device_at, device_registration_find, register_locked, device_register,
  device_unregister, device_get_by_id,
}
use netdevsim_dkms.Dpll.Device.Registering.{
  IsMarked, device_register_twice, device_unregister-IsMarked,
}

-- A device with clock id 11 and index 1, not registered yet.
abbrev eec : Device
eec = record {
  id = 4;
  device_idx = 1;
  clock_id = 11;
  creator = 100;
  type = 0;
  pin_refs = [];
  refcount = 2;
  registrations = [];
  registered = false;
}

abbrev callbacks : DeviceOps
callbacks = record { address = 30; mode_get = true; lock_status_get = true }

hidden : device_get_by_id 4 (eec ∷ []) ≡ none
unfolding device_get_by_id device_at
hidden = refl

device_register_twice_example :
    let d' = (device_register true eec 2 (some callbacks) 77).1 in
    device_register true d' 1 (some callbacks) 77 ≡ (err eexist, d', [])
unfolding device_register register_locked device_registration_find
device_register_twice_example =
    device_register_twice true true eec 2 1 callbacks 77 refl (omega arith) (omega arith) refl

device_unregister-IsMarked_example : IsMarked (device_unregister eec 30 77).0
device_unregister-IsMarked_example = device_unregister-IsMarked eec 30 77 refl
