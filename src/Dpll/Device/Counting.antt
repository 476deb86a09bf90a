-- ===== src/Dpll/Device/Counting.antt =====
-- `dpll_device_get` and `dpll_device_put`: one device for the same arguments, and its count.
use netdevsim_dkms.Base.{
  ℕ, ◌+◌, ◌≤◌, ◌<◌, ◌≡◌, refl, inl, inr, Bool, true, false, Option, none, some, List, [], ◌∷◌,
  arith, ok, Option-cases, All,
}
use netdevsim_dkms.Dpll.Device.{
  Device, XaAlloc, allocated, failed, same_device, device_find, set_refcount, device_erase,
  device_at, device_insert, new_device, device_alloc, device_get, device_put,
}

-- The ids rise along the list, from a bound on.
abbrev pub Rising : ℕ → List Device → Type 0
Rising n [] = Unit {0}
Rising n (d ∷ ds) = (n ≤ d.id) × Rising (d.id + 1) ds

-- No device that is there has been counted down to 0.
abbrev pub IsHeld : List Device → Type 0
IsHeld = All (λ d. 0 < d.refcount)

pub record IsStore (ds : List Device) : Type 0 where
  pub rising : Rising 0 ds
  pub held : IsHeld ds

-- What xa_alloc_cyclic promises: an id that is not taken.
abbrev pub IsFree : XaAlloc → List Device → Type 0
IsFree (allocated i wrapped) ds = device_at i ds ≡ none
IsFree (failed e) ds = Unit

at_below : (n i : ℕ) (ds : List Device) → Rising n ds → i < n → device_at i ds ≡ none
unfolding device_at
at_below n i [] h lt = refl
at_below n i (d ∷ ds) h lt = ground (arith, at_below (d.id + 1) i ds h.1)

-- The ids are distinct: what a search finds is the device of its id.
find-at :
    (n clock idx creator : ℕ) (d : Device) (ds : List Device)
    → Rising n ds
    → device_find clock idx creator ds ≡ some d
    → (device_at d.id ds ≡ some d) × (n ≤ d.id)
unfolding device_find device_at
find-at n clock idx creator d [] h e = ground arith
find-at n clock idx creator d (x ∷ ds) h e =
    ground (arith, find-at (x.id + 1) clock idx creator d ds h.1)

at-set_refcount :
    (i n : ℕ) (d : Device) (ds : List Device)
    → device_at i ds ≡ some d
    → (device_at i (set_refcount i n ds) ≡ some (record d { refcount = n }))
      × (set_refcount i d.refcount (set_refcount i n ds) ≡ ds)
unfolding device_at set_refcount
at-set_refcount i n d [] e = ground arith
at-set_refcount i n d (x ∷ ds) e = ground (arith, at-set_refcount i n d ds)

at-IsHeld :
    (i : ℕ) (d : Device) (ds : List Device) → IsHeld ds → device_at i ds ≡ some d → 0 < d.refcount
unfolding device_at
at-IsHeld i d [] h e = ground arith
at-IsHeld i d (x ∷ ds) h e = ground (arith, at-IsHeld i d ds h.1)

at-insert :
    (v : Device) (ds : List Device)
    → device_at v.id ds ≡ none
    → (device_at v.id (device_insert v ds) ≡ some v) × (device_erase v.id (device_insert v ds) ≡ ds)
unfolding device_at device_insert device_erase
at-insert v [] e = ground arith
at-insert v (x ∷ ds) e = ground (arith, at-insert v ds)

-- The search sees the same devices after a change of a count.
abbrev found_id : Option Device → Option ℕ
found_id none = none
found_id (some d) = some d.id

find-set_refcount :
    (clock idx creator i n : ℕ) (ds : List Device)
    → found_id (device_find clock idx creator (set_refcount i n ds))
      ≡ found_id (device_find clock idx creator ds)
unfolding device_find set_refcount
find-set_refcount clock idx creator i n [] = refl
find-set_refcount clock idx creator i n (x ∷ ds) =
    ground (arith, find-set_refcount clock idx creator i n ds)

find-insert :
    (clock idx creator : ℕ) (v : Device) (ds : List Device)
    → device_find clock idx creator ds ≡ none
    → same_device clock idx creator v ≡ true
    → device_find clock idx creator (device_insert v ds) ≡ some v
unfolding device_find device_insert
find-insert clock idx creator v [] e same = rw same
find-insert clock idx creator v (x ∷ ds) e same = ground (arith, find-insert clock idx creator v ds)

-- What `dpll_device_alloc` does when it succeeds.
alloc-success :
    (mem : Bool) (xa : XaAlloc) (clock idx creator i : ℕ) (ds : List Device)
    → (device_alloc mem xa clock idx creator ds).0 ≡ ok i
    → (device_alloc mem xa clock idx creator ds
        ≡ (ok i, device_insert (new_device i clock idx creator) ds))
      × (IsFree xa ds → device_at i ds ≡ none)
unfolding device_alloc
alloc-success false xa clock idx creator i ds h = absurd (ground arith)
alloc-success true (failed e) clock idx creator i ds h = absurd (ground arith)
alloc-success true (allocated j w) clock idx creator i ds h = (ground arith, λ free. ground arith)

-- A search that knows an id answers a get.
get-found :
    (mem : Bool) (xa : XaAlloc) (clock idx creator i : ℕ) (ds : List Device)
    → found_id (device_find clock idx creator ds) ≡ some i
    → (device_get mem xa clock idx creator ds).0 ≡ ok i
unfolding device_get
get-found mem xa clock idx creator i ds h = ground arith

-- The same arguments give the same device: after a `dpll_device_get` that succeeded, another one
-- with the same clock id, index and module succeeds, whatever the allocators answer, with the same
-- device.
pub device_get_again :
    (mem mem' : Bool) (xa xa' : XaAlloc) (clock idx creator i : ℕ) (ds : List Device)
    → (device_get mem xa clock idx creator ds).0 ≡ ok i
    → (device_get mem' xa' clock idx creator (device_get mem xa clock idx creator ds).1).0 ≡ ok i
unfolding new_device device_get
device_get_again mem mem' xa xa' clock idx creator i ds h =
    get-found mem' xa' clock idx creator i (device_get mem xa clock idx creator ds).1
      (elim (Option-cases (device_find clock idx creator ds)) [
        | inl e ↦
            let a = (alloc-success mem xa clock idx creator i ds (rw (e, device_get) at h)).0 in
            let v : Device = new_device i clock idx creator in
            rw (e, device_get, a, find-insert clock idx creator v ds e (ground arith)) refl
        | inr (d, e) ↦
            rw (e, device_get, find-set_refcount clock idx creator d.id (d.refcount + 1) ds, e)
              (ground (arith, e))
      ])

-- A `dpll_device_put` after a `dpll_device_get` that succeeded restores the devices: the count of
-- one that was there, or the list without the new one. The ids rise, no count is 0, and an id that
-- the allocator gives is free.
pub device_put-device_get :
    (mem : Bool) (xa : XaAlloc) (clock idx creator i : ℕ) (ds : List Device)
    → IsStore ds
    → IsFree xa ds
    → (device_get mem xa clock idx creator ds).0 ≡ ok i
    → device_put i (device_get mem xa clock idx creator ds).1 ≡ some ds
unfolding device_get device_put new_device
device_put-device_get mem xa clock idx creator i ds s free h =
    elim (Option-cases (device_find clock idx creator ds)) [
      | inl e ↦
          let (a, unused) = alloc-success mem xa clock idx creator i ds (rw (e, device_get) at h) in
          let v : Device = new_device i clock idx creator in
          ground (arith, e, a, at-insert v ds (unused free))
      | inr (d, e) ↦
          let at = (find-at 0 clock idx creator d ds s.rising e).0 in
          ground
            (arith, e, at-set_refcount d.id (d.refcount + 1) d ds at, at-IsHeld d.id d ds s.held at)
    ]
