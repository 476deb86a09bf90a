-- ===== src/Dpll/Pin.antt =====
-- The DPLL pins of dpll/dpll_core.c and their registration with devices. As for devices, the xarray
-- of pins is a list by rising id, and the answers of the allocators are arguments.
pub mod Linking
pub mod Wrapping
mod Examples
use netdevsim_dkms.Base.{
  ℕ, ◌+◌, ◌-◌, Bool, true, false, not, ◌&&◌, ◌||◌, Option, none, some, List, [], ◌∷◌, Errno, enomem,
  einval, Result, ok, err, Status, success, ◌==◌, ltb, if◌then◌else◌,
}
use netdevsim_dkms.Dpll.Refs.{Registration, Refs, Memory, ref_add, ref_del}
use netdevsim_dkms.Dpll.Device.{
  Device, XaAlloc, allocated, failed, Notification, pin_created, pin_deleted, is_empty,
}

-- `struct dpll_pin_ops`: its address, and which of the callbacks that are tested it has.
pub record PinOps : Type 0 where
  pub address : ℕ
  pub state_on_dpll_get : Bool
  pub direction_get : Bool

-- `struct dpll_pin`; of the properties only the type is kept.
pub record Pin : Type 0 where
  pub id : ℕ
  pub pin_idx : ℕ
  pub clock_id : ℕ
  pub creator : ℕ
  pub dpll_refs : Refs
  pub parent_refs : Refs
  pub prop_type : ℕ
  pub refcount : ℕ
  pub registered : Bool

-- `dpll_pin_xa`: the pins, and the indices whose entry is a pin that has been freed.
pub record Pins : Type 0 where
  pub live : List Pin
  pub dangling : List ℕ

-- What `dpll_pin_get` returns: a pin, an error, or `ERR_PTR(1)`, which `IS_ERR` does not recognise.
pub data PinPtr : Type 0 where
  pin : ℕ → PinPtr
  err_ptr : Errno → PinPtr
  err_ptr_1 : PinPtr

-- `DPLL_PIN_TYPE_MUX` and `DPLL_PIN_TYPE_MAX` of the kernel's uapi/linux/dpll.h
abbrev pub pin_type_mux : ℕ
pin_type_mux = 1

abbrev pub pin_type_max : ℕ
pin_type_max = 5

abbrev pub same_pin : ℕ → ℕ → ℕ → Pin → Bool
same_pin clock idx creator p = (p.clock_id == clock) && (p.pin_idx == idx) && (p.creator == creator)

pub pin_find : ℕ → ℕ → ℕ → List Pin → Option Pin
pin_find clock idx creator [] = none
pin_find clock idx creator (p ∷ ps) =
    if same_pin clock idx creator p then some p else pin_find clock idx creator ps

pub pin_at : ℕ → List Pin → Option Pin
pin_at i [] = none
pin_at i (p ∷ ps) = if p.id == i then some p else pin_at i ps

pub pin_set_refcount : ℕ → ℕ → List Pin → List Pin
pin_set_refcount i n [] = []
pin_set_refcount i n (p ∷ ps) =
    if p.id == i then record p { refcount = n } ∷ ps else p ∷ pin_set_refcount i n ps

pub pin_insert : Pin → List Pin → List Pin
pin_insert v [] = v ∷ []
pin_insert v (p ∷ ps) = if ltb v.id p.id then v ∷ p ∷ ps else p ∷ pin_insert v ps

pub pin_erase : ℕ → List Pin → List Pin
pin_erase i [] = []
pin_erase i (p ∷ ps) = if p.id == i then ps else p ∷ pin_erase i ps

new_pin : ℕ → ℕ → ℕ → ℕ → ℕ → Pin
new_pin i clock idx creator prop_type = record {
  id = i;
  pin_idx = idx;
  clock_id = clock;
  creator = creator;
  dpll_refs = [];
  parent_refs = [];
  prop_type = prop_type;
  refcount = 1;
  registered = false;
}

-- The answer of xa_alloc_cyclic is taken for an error unless it is 0, and it is 1 where the ids have
-- wrapped round.
pin_alloc_xa : XaAlloc → ℕ → ℕ → ℕ → ℕ → Pins → PinPtr × Pins
unfolding new_pin
pin_alloc_xa (failed e) clock idx creator prop_type s = (err_ptr e, s)
pin_alloc_xa (allocated i true) clock idx creator prop_type s =
    (err_ptr_1, record s { dangling = i ∷ s.dangling })
pin_alloc_xa (allocated i false) clock idx creator prop_type s =
    (pin i, record s { live = pin_insert (new_pin i clock idx creator prop_type) s.live })

-- The two flags: whether the pin and the copy of its properties are allocated.
pub pin_alloc : Bool → Bool → XaAlloc → ℕ → ℕ → ℕ → ℕ → Pins → PinPtr × Pins
unfolding pin_alloc_xa
pin_alloc mem dup xa clock idx creator prop_type s =
    if not mem
    then (err_ptr enomem, s)
    else if ltb prop_type pin_type_mux || ltb pin_type_max prop_type
    then (err_ptr einval, s)
    else if not dup
    then (err_ptr enomem, s)
    else pin_alloc_xa xa clock idx creator prop_type s

pub pin_get : Bool → Bool → XaAlloc → ℕ → ℕ → ℕ → ℕ → Pins → PinPtr × Pins
pin_get mem dup xa clock idx creator prop_type s = elim (pin_find clock idx creator s.live) [
  | some p ↦ (pin p.id, record s { live = pin_set_refcount p.id (p.refcount + 1) s.live })
  | none ↦ pin_alloc mem dup xa clock idx creator prop_type s
]

-- `none` is the use of a pin that is gone.
pub pin_put : ℕ → Pins → Option Pins
pin_put i s = elim (pin_at i s.live) [
  | none ↦ none
  | some p ↦
      if p.refcount == 1
      then some (record s { live = pin_erase i s.live })
      else some (record s { live = pin_set_refcount i (p.refcount - 1) s.live })
]

-- `__dpll_pin_register`: the pin in the device's table, then the device in the pin's; if the second
-- fails the first is taken back.
pub register_refs :
    Memory → Memory → Device → Pin → Registration → Status × Device × Pin × List Notification
register_refs mem mem' d p reg =
    let (r, refs) = ref_add mem d.pin_refs p.id p.pin_idx reg in
    elim r [
      | err e ↦ (err e, record d { pin_refs = refs }, p, [])
      | ok u ↦
          let (r', refs') = ref_add mem' p.dpll_refs d.id d.id reg in
          elim r' [
            | err e ↦ (
              err e,
              record d { pin_refs = (ref_del refs p.id reg).1 },
              record p { dpll_refs = refs' },
              [],
            )
            | ok u' ↦ (
              success,
              record d { pin_refs = refs },
              record p { dpll_refs = refs'; registered = true },
              pin_created p.id ∷ [],
            )
          ]
    ]

pub pin_register :
    Memory → Memory → Device → Pin → Option PinOps → ℕ → Status × Device × Pin × List Notification
pin_register mem mem' d p none priv = (err einval, d, p, [])
pin_register mem mem' d p (some ops) priv =
    if not ops.state_on_dpll_get
    then (err einval, d, p, [])
    else if not ops.direction_get
    then (err einval, d, p, [])
    else if not ((d.creator == p.creator) && (d.clock_id == p.clock_id))
    then (err einval, d, p, [])
    else register_refs mem mem' d p (record { ops = ops.address; priv = priv; cookie = 0 })

-- `__dpll_pin_unregister`
pub unregister_refs : Device → Pin → Registration → Device × Pin
unregister_refs d p reg =
    let refs = (ref_del p.dpll_refs d.id reg).1 in
    (
      record d { pin_refs = (ref_del d.pin_refs p.id reg).1 },
      record p { dpll_refs = refs; registered = if is_empty refs then false else p.registered },
    )

pub pin_unregister : Device → Pin → ℕ → ℕ → Device × Pin × List Notification
pin_unregister d p ops priv =
    if is_empty d.pin_refs
    then (d, p, [])
    else if not (is_empty p.parent_refs)
    then (d, p, [])
    else let (d', p') = unregister_refs d p (record { ops = ops; priv = priv; cookie = 0 }) in
      (d', p', pin_deleted p.id ∷ [])
