-- ===== src/Dpll/Device/Registering.antt =====
-- `dpll_device_register` and `dpll_device_unregister`: the mark, the list of owners, and what is
-- announced.
use netdevsim_dkms.Base.{
  ℕ, ◌≤◌, ◌≡◌, refl, subst, ◌⊎◌, inl, inr, Bool, true, false, not, ◌||◌, Option, none, some, List,
  [], ◌∷◌, ◌++◌, arith, Errno, eexist, einval, enomem, err, success, ltb, if◌then◌else◌, Bool-cases,
}
use netdevsim_dkms.Dpll.Device.{
  Device, DeviceOps, DeviceRegistration, device_created, device_deleted, type_pps, type_max,
  device_registration_find, device_registration_del, is_empty, register_locked, device_register,
  device_unregister,
}

-- A device is marked as registered exactly while somebody has registered it.
abbrev pub IsMarked : Device → Type 0
IsMarked d = d.registered ≡ not (is_empty d.registrations)

find-append :
    (ops priv : ℕ) (rs : List DeviceRegistration)
    → device_registration_find ops priv (rs ++ record { ops = ops; priv = priv } ∷ []) ≡ true
unfolding device_registration_find
find-append ops priv [] = ground arith
find-append ops priv (r ∷ rs) = ground (arith, find-append ops priv rs)

del-append :
    (ops priv : ℕ) (rs : List DeviceRegistration)
    → device_registration_find ops priv rs ≡ false
    → device_registration_del ops priv (rs ++ record { ops = ops; priv = priv } ∷ []) ≡ rs
unfolding device_registration_find device_registration_del
del-append ops priv [] h = ground arith
del-append ops priv (r ∷ rs) h = ground (arith, del-append ops priv rs)

is_empty-append :
    (rs : List DeviceRegistration) (r : DeviceRegistration) → is_empty (rs ++ r ∷ []) ≡ false
is_empty-append [] r = refl
is_empty-append (x ∷ rs) r = refl

-- The device after a registration that was accepted.
abbrev pub with_registration : Device → ℕ → ℕ → ℕ → Device
with_registration d dpll_type ops priv = record d {
  type = dpll_type;
  registrations = d.registrations ++ record { ops = ops; priv = priv } ∷ [];
  registered = true;
}

register_locked_cases :
    (mem : Bool) (d : Device) (dpll_type ops priv : ℕ)
    → IsMarked d
    → ((e : Errno) × (register_locked mem d dpll_type ops priv ≡ (err e, d, [])))
      ⊎ ((register_locked mem d dpll_type ops priv ≡ (
        success,
        with_registration d dpll_type ops priv,
        if d.registered then [] else device_created d.id ∷ [],
      ))
          × (device_registration_find ops priv d.registrations ≡ false))
unfolding register_locked
register_locked_cases mem d dpll_type ops priv m =
    elim (Bool-cases (device_registration_find ops priv d.registrations)) [
      | inl e ↦ inl (eexist, simp e refl)
      | inr e ↦ elim (Bool-cases mem) [
        | inr f ↦ inl (enomem, simp (e, f) refl)
        | inl f ↦ inr (ground arith, e)
      ]
    ]

-- On a device whose mark is right, `dpll_device_register` either fails, changes nothing and announces
-- nothing; or it adds the owner, which was not there, at the end of the list, sets the type and the
-- mark, and announces the device exactly if it was not marked before.
pub device_register_cases :
    (mem : Bool) (d : Device) (dpll_type : ℕ) (ops : Option DeviceOps) (priv : ℕ)
    → IsMarked d
    → ((e : Errno) × (device_register mem d dpll_type ops priv ≡ (err e, d, [])))
      ⊎ ((o : DeviceOps) × (ops ≡ some o)
          × (device_register mem d dpll_type ops priv ≡ (
            success,
            with_registration d dpll_type o.address priv,
            if d.registered then [] else device_created d.id ∷ [],
          ))
          × (device_registration_find o.address priv d.registrations ≡ false))
unfolding device_register
device_register_cases mem d dpll_type none priv m = inl (einval, refl)
device_register_cases mem d dpll_type (some o) priv m = elim (Bool-cases o.mode_get) [
  | inr a ↦ inl (einval, simp a refl)
  | inl a ↦ elim (Bool-cases o.lock_status_get) [
    | inr b ↦ inl (einval, simp (a, b) refl)
    | inl b ↦ elim (Bool-cases (ltb dpll_type type_pps || ltb type_max dpll_type)) [
      | inl c ↦ inl (einval, simp (a, b, c) refl)
      | inr c ↦ elim (register_locked_cases mem d dpll_type o.address priv m) [
        | inl (e, f) ↦ inl (e, simp (a, b, c) f)
        | inr (f, g) ↦ inr (o, refl, simp (a, b, c) f, g)
      ]
    ]
  ]
]

-- After a `dpll_device_register` that succeeded, the same owner is refused with EEXIST, whatever the
-- type, unless the arguments themselves are refused.
pub device_register_twice :
    (mem mem' : Bool) (d : Device) (dpll_type dpll_type' : ℕ) (ops : DeviceOps) (priv : ℕ)
    → IsMarked d
    → type_pps ≤ dpll_type'
    → dpll_type' ≤ type_max
    → (device_register mem d dpll_type (some ops) priv).0 ≡ success
    → let d' = (device_register mem d dpll_type (some ops) priv).1 in
      device_register mem' d' dpll_type' (some ops) priv ≡ (err eexist, d', [])
unfolding device_register register_locked
device_register_twice mem mem' d dpll_type dpll_type' ops priv m lo hi h =
    ground (arith, find-append ops.address priv d.registrations)

-- The statement that a registration succeeds with the callbacks `o`.
abbrev Registers : Bool → Device → ℕ → DeviceOps → ℕ → DeviceOps → Type 0
Registers mem d dpll_type ops priv o = device_register mem d dpll_type (some ops) priv ≡ (
  success,
  with_registration d dpll_type o.address priv,
  if d.registered then [] else device_created d.id ∷ [],
)

find-nonempty :
    (ops priv : ℕ) (rs : List DeviceRegistration)
    → device_registration_find ops priv rs ≡ true
    → is_empty rs ≡ false
unfolding device_registration_find
find-nonempty ops priv [] h = ground arith
find-nonempty ops priv (r ∷ rs) h = refl

-- `dpll_device_unregister` after a `dpll_device_register` that succeeded, on a device whose mark is
-- right, takes the owner out again and restores the list and the mark; the type stays set, and the
-- deletion is announced.
pub device_unregister-device_register :
    (mem : Bool) (d : Device) (dpll_type : ℕ) (ops : DeviceOps) (priv : ℕ)
    → IsMarked d
    → (device_register mem d dpll_type (some ops) priv).0 ≡ success
    → device_unregister (device_register mem d dpll_type (some ops) priv).1 ops.address priv
      ≡ (record d { type = dpll_type }, device_deleted d.id ∷ [])
unfolding device_unregister
device_unregister-device_register mem d dpll_type ops priv m h =
    elim (device_register_cases mem d dpll_type (some ops) priv m) [
      | inl (e, f) ↦ cc (rw f at h)
      | inr (o, eq, f, g) ↦
          let same : o ≡ ops = cc eq in
          let f' = subst (Registers mem d dpll_type ops priv) same f in
          let g' : device_registration_find ops.address priv d.registrations ≡ false =
            ground (arith, same, g) in
          rw f' (
            ground (
              arith,
              find-append ops.address priv d.registrations,
              del-append ops.address priv d.registrations g',
            ))
    ]

-- `dpll_device_unregister` keeps the mark right, for whatever owner.
pub device_unregister-IsMarked :
    (d : Device) (ops priv : ℕ) → IsMarked d → IsMarked (device_unregister d ops priv).0
unfolding device_unregister
device_unregister-IsMarked d ops priv m = ground (arith, find-nonempty ops priv d.registrations)
