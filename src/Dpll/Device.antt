-- ===== src/Dpll/Device.antt =====
-- The DPLL devices of dpll/dpll_core.c. `dpll_device_xa` is the list of its devices by rising id,
-- its mark DPLL_REGISTERED a field of each, and a pointer to a device its id. The answers of kzalloc
-- and xa_alloc_cyclic are arguments of each call.
pub mod Counting
pub mod Registering
mod Examples
use netdevsim_dkms.Base.{
  ℕ, ◌+◌, ◌-◌, Bool, true, false, not, ◌&&◌, ◌||◌, Option, none, some, List, [], ◌∷◌, ◌++◌, Errno,
  enomem, einval, eexist, Result, ok, err, Status, success, ◌==◌, ltb, if◌then◌else◌,
}
use netdevsim_dkms.Dpll.Refs.{Refs}

-- `struct dpll_device_ops`: its address, and which of the mandatory callbacks it has.
pub record DeviceOps : Type 0 where
  pub address : ℕ
  pub mode_get : Bool
  pub lock_status_get : Bool

-- `struct dpll_device_registration`
pub record DeviceRegistration : Type 0 where
  pub ops : ℕ
  pub priv : ℕ

-- `struct dpll_device`
pub record Device : Type 0 where
  pub id : ℕ
  pub device_idx : ℕ
  pub clock_id : ℕ
  pub creator : ℕ
  pub type : ℕ
  pub pin_refs : Refs
  pub refcount : ℕ
  pub registrations : List DeviceRegistration
  pub registered : Bool

-- What `xa_alloc_cyclic` answers: an id, and whether the search wrapped round, or an error.
pub data XaAlloc : Type 0 where
  allocated : ℕ → Bool → XaAlloc
  failed : Errno → XaAlloc

pub data Notification : Type 0 where
  device_created device_deleted pin_created pin_deleted : ℕ → Notification

-- `DPLL_TYPE_PPS` and `DPLL_TYPE_MAX` of the kernel's uapi/linux/dpll.h
abbrev pub type_pps : ℕ
type_pps = 1

abbrev pub type_max : ℕ
type_max = 2

abbrev pub same_device : ℕ → ℕ → ℕ → Device → Bool
same_device clock idx creator d =
    (d.clock_id == clock) && (d.device_idx == idx) && (d.creator == creator)

-- The loop of `dpll_device_get`; the first device of the arguments is counted once more.
pub device_find : ℕ → ℕ → ℕ → List Device → Option Device
device_find clock idx creator [] = none
device_find clock idx creator (d ∷ ds) =
    if same_device clock idx creator d then some d else device_find clock idx creator ds

-- Writes to the device of an id, and its removal from the xarray.
pub set_refcount : ℕ → ℕ → List Device → List Device
set_refcount i n [] = []
set_refcount i n (d ∷ ds) =
    if d.id == i then record d { refcount = n } ∷ ds else d ∷ set_refcount i n ds

pub device_erase : ℕ → List Device → List Device
device_erase i [] = []
device_erase i (d ∷ ds) = if d.id == i then ds else d ∷ device_erase i ds

pub device_at : ℕ → List Device → Option Device
device_at i [] = none
device_at i (d ∷ ds) = if d.id == i then some d else device_at i ds

pub device_insert : Device → List Device → List Device
device_insert v [] = v ∷ []
device_insert v (d ∷ ds) = if ltb v.id d.id then v ∷ d ∷ ds else d ∷ device_insert v ds

-- `dpll_device_get_by_id`
pub device_get_by_id : ℕ → List Device → Option Device
device_get_by_id i ds = elim (device_at i ds) [
  | none ↦ none
  | some d ↦ if d.registered then some d else none
]

new_device : ℕ → ℕ → ℕ → ℕ → Device
new_device i clock idx creator = record {
  id = i;
  device_idx = idx;
  clock_id = clock;
  creator = creator;
  type = 0;
  pin_refs = [];
  refcount = 1;
  registrations = [];
  registered = false;
}

pub device_alloc : Bool → XaAlloc → ℕ → ℕ → ℕ → List Device → Result ℕ × List Device
unfolding new_device
device_alloc false xa clock idx creator ds = (err enomem, ds)
device_alloc true (failed e) clock idx creator ds = (err e, ds)
device_alloc true (allocated i wrapped) clock idx creator ds =
    (ok i, device_insert (new_device i clock idx creator) ds)

pub device_get : Bool → XaAlloc → ℕ → ℕ → ℕ → List Device → Result ℕ × List Device
device_get mem xa clock idx creator ds = elim (device_find clock idx creator ds) [
  | some d ↦ (ok d.id, set_refcount d.id (d.refcount + 1) ds)
  | none ↦ device_alloc mem xa clock idx creator ds
]

-- `none` is the use of a device that is gone.
pub device_put : ℕ → List Device → Option (List Device)
device_put i ds = elim (device_at i ds) [
  | none ↦ none
  | some d ↦
      if d.refcount == 1
      then some (device_erase i ds)
      else some (set_refcount i (d.refcount - 1) ds)
]

abbrev pub same_device_registration : ℕ → ℕ → DeviceRegistration → Bool
same_device_registration ops priv r = (r.ops == ops) && (r.priv == priv)

pub device_registration_find : ℕ → ℕ → List DeviceRegistration → Bool
device_registration_find ops priv [] = false
device_registration_find ops priv (r ∷ rs) =
    if same_device_registration ops priv r then true else device_registration_find ops priv rs

pub device_registration_del : ℕ → ℕ → List DeviceRegistration → List DeviceRegistration
device_registration_del ops priv [] = []
device_registration_del ops priv (r ∷ rs) =
    if same_device_registration ops priv r then rs else r ∷ device_registration_del ops priv rs

abbrev pub is_empty {ℓ} : {A : Type ℓ} → List A → Bool
is_empty [] = true
is_empty (x ∷ xs) = false

-- Under the lock; the notifications that the call sends come with the device.
register_locked : Bool → Device → ℕ → ℕ → ℕ → Status × Device × List Notification
register_locked mem d dpll_type ops priv =
    if device_registration_find ops priv d.registrations
    then (err eexist, d, [])
    else if not mem
    then (err enomem, d, [])
    else let rs : List DeviceRegistration =
        d.registrations ++ record { ops = ops; priv = priv } ∷ [] in
      if is_empty d.registrations
      then (
        success,
        record d { type = dpll_type; registrations = rs; registered = true },
        device_created d.id ∷ [],
      )
      else (success, record d { type = dpll_type; registrations = rs }, [])

pub device_register : Bool → Device → ℕ → Option DeviceOps → ℕ → Status × Device × List Notification
unfolding register_locked
device_register mem d dpll_type none priv = (err einval, d, [])
device_register mem d dpll_type (some ops) priv =
    if not ops.mode_get
    then (err einval, d, [])
    else if not ops.lock_status_get
    then (err einval, d, [])
    else if ltb dpll_type type_pps || ltb type_max dpll_type
    then (err einval, d, [])
    else register_locked mem d dpll_type ops.address priv

-- The deletion is announced first, whatever comes next.
pub device_unregister : Device → ℕ → ℕ → Device × List Notification
device_unregister d ops priv =
    let ntf : List Notification = device_deleted d.id ∷ [] in
    if not (device_registration_find ops priv d.registrations)
    then (d, ntf)
    else let rs = device_registration_del ops priv d.registrations in
      if not (is_empty rs)
      then (record d { registrations = rs }, ntf)
      else (record d { registrations = rs; registered = false }, ntf)
