-- ===== src/Dpll/Pin/Wrapping.antt =====
-- What `dpll_pin_alloc` makes of ids that have wrapped round.
use netdevsim_dkms.Base.{ℕ, ◌≤◌, ◌≡◌, true, none, ◌∷◌, arith}
use netdevsim_dkms.Dpll.Device.{allocated}
use netdevsim_dkms.Dpll.Pin.{
  Pins, err_ptr_1, pin_type_mux, pin_type_max, pin_find, pin_alloc, pin_get,
}

-- The bug: xa_alloc_cyclic answers 1 where it gives an id after wrapping round, and `dpll_pin_alloc`
-- takes this for an error. For a new pin of a valid type, where memory suffices, the caller then gets
-- `ERR_PTR(1)`, which is no error pointer, and the index keeps an entry for the freed pin.
pub pin_get-wrapped :
    (i clock idx creator prop_type : ℕ) (s : Pins)
    → pin_find clock idx creator s.live ≡ none
    → pin_type_mux ≤ prop_type
    → prop_type ≤ pin_type_max
    → pin_get true true (allocated i true) clock idx creator prop_type s
      ≡ (err_ptr_1, record s { dangling = i ∷ s.dangling })
unfolding pin_get pin_alloc
pin_get-wrapped i clock idx creator prop_type s new lo hi = ground (arith, new)
