-- ===== src/Dpll/Pin/Examples.antt =====
-- The theorems about DPLL pins at concrete ones.
use netdevsim_dkms.Base.{◌≡◌, refl, inl, true, false, not, some, [], ◌∷◌}
use netdevsim_dkms.Dpll.Refs.{Memory, find_ref, xa_insert, add_new, ref_add}
use netdevsim_dkms.Dpll.Device.{Device, pin_deleted}
use netdevsim_dkms.Dpll.Pin.{
  Pin, Pins, PinOps, pin_at, pin_erase, pin_put, register_refs, pin_register, pin_unregister,
}
use netdevsim_dkms.Dpll.Pin.Linking.{CanLink, owner, pin_unregister-pin_register}

abbrev device : Device
device = record {
  id = 4;
  device_idx = 1;
  clock_id = 11;
  creator = 100;
  type = 0;
  pin_refs = [];
  refcount = 1;
  registrations = [];
  registered = false;
}

abbrev gnss : Pin
gnss = record {
  id = 9;
  pin_idx = 3;
  clock_id = 11;
  creator = 100;
  dpll_refs = [];
  parent_refs = [];
  prop_type = 3;
  refcount = 1;
  registered = false;
}

abbrev no_pins : Pins
no_pins = record { live = []; dangling = [] }

abbrev callbacks : PinOps
callbacks = record { address = 30; state_on_dpll_get = true; direction_get = true }

abbrev plenty : Memory
plenty = record { ref = true; slot = true; registration = true }

abbrev no_registration : Memory
no_registration = record { ref = true; slot = true; registration = false }

can_link : CanLink device gnss (owner 30 77)
unfolding find_ref
can_link = record { device_held = tt; device_fresh = inl refl; pin_held = tt; pin_fresh = inl refl }

put_last : pin_put 9 (record { live = gnss ∷ []; dangling = [] }) ≡ some no_pins
unfolding pin_put pin_at pin_erase
put_last = refl

pin_unregister-pin_register_example :
    let (r, d', p', ntf) = pin_register plenty plenty device gnss (some callbacks) 77 in
    pin_unregister d' p' 30 77 ≡ (device, record gnss { registered = not true }, pin_deleted 9 ∷ [])
unfolding pin_register register_refs ref_add find_ref add_new xa_insert
pin_unregister-pin_register_example =
    pin_unregister-pin_register plenty plenty device gnss callbacks 77 can_link refl refl
