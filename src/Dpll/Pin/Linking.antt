-- ===== src/Dpll/Pin/Linking.antt =====
-- Registering a pin with a device links the two tables, or leaves both as they were.
use netdevsim_dkms.Base.{
  ℕ, ◌≡◌, refl, inl, inr, true, false, not, some, [], ◌∷◌, arith, Errno, err, success, Result-cases,
}
use netdevsim_dkms.Dpll.Refs.{Registration, Refs, Memory, find_ref, ref_add, ref_del}
use netdevsim_dkms.Dpll.Refs.Laws.{IsHeld, IsFresh, ref_add-err, ref_del-ref_add}
use netdevsim_dkms.Dpll.Device.{Device, pin_created, pin_deleted, is_empty}
use netdevsim_dkms.Dpll.Pin.{
  Pin, PinOps, register_refs, pin_register, unregister_refs, pin_unregister,
}

-- The two tables do not have the registration yet, and no reference in them has the count 0.
pub record CanLink (d : Device) (p : Pin) (reg : Registration) : Type 0 where
  pub device_held : IsHeld d.pin_refs
  pub device_fresh : IsFresh d.pin_refs p.id reg
  pub pin_held : IsHeld p.dpll_refs
  pub pin_fresh : IsFresh p.dpll_refs d.id reg

-- The registration of an owner that registers a pin with a device.
abbrev pub owner : ℕ → ℕ → Registration
owner ops priv = record { ops = ops; priv = priv; cookie = 0 }

register_refs-err :
    (mem mem' : Memory) (d : Device) (p : Pin) (reg : Registration) (e : Errno)
    → CanLink d p reg
    → (register_refs mem mem' d p reg).0 ≡ err e
    → register_refs mem mem' d p reg ≡ (err e, d, p, [])
unfolding register_refs
register_refs-err mem mem' d p reg e can h =
    elim (Result-cases (ref_add mem d.pin_refs p.id p.pin_idx reg).0) [
      | inl (e1, a) ↦ ground (arith, a, ref_add-err mem d.pin_refs p.id p.pin_idx reg e1 a)
      | inr (tt, a) ↦
          let back =
            ref_del-ref_add mem d.pin_refs p.id p.pin_idx reg can.device_held can.device_fresh a in
          elim (Result-cases (ref_add mem' p.dpll_refs d.id d.id reg).0) [
            | inl (e2, b) ↦
                ground (arith, a, b, back, ref_add-err mem' p.dpll_refs d.id d.id reg e2 b)
            | inr (tt, b) ↦ absurd (ground (arith, a, b))
          ]
    ]

-- What a registration that succeeded has done.
register_refs-success :
    (mem mem' : Memory) (d : Device) (p : Pin) (reg : Registration)
    → (register_refs mem mem' d p reg).0 ≡ success
    → ((ref_add mem d.pin_refs p.id p.pin_idx reg).0 ≡ success)
      × ((ref_add mem' p.dpll_refs d.id d.id reg).0 ≡ success)
      × (register_refs mem mem' d p reg ≡ (
        success,
        record d { pin_refs = (ref_add mem d.pin_refs p.id p.pin_idx reg).1 },
        record p { dpll_refs = (ref_add mem' p.dpll_refs d.id d.id reg).1; registered = true },
        pin_created p.id ∷ [],
      ))
unfolding register_refs
register_refs-success mem mem' d p reg h = ground arith

-- A table from which something can be deleted is not empty.
nonempty_of_del :
    (m m' : Refs) (t : ℕ) (reg : Registration)
    → ref_del m t reg ≡ (success, m')
    → is_empty m ≡ false
unfolding ref_del find_ref
nonempty_of_del [] m' t reg h = ground arith
nonempty_of_del (x ∷ m) m' t reg h = refl

-- `dpll_pin_register` that fails, for whatever reason, leaves device and pin as they were and
-- announces nothing, where the tables do not have the registration yet and no count in them is 0.
pub pin_register-err :
    (mem mem' : Memory) (d : Device) (p : Pin) (ops : PinOps) (priv : ℕ) (e : Errno)
    → CanLink d p (owner ops.address priv)
    → (pin_register mem mem' d p (some ops) priv).0 ≡ err e
    → pin_register mem mem' d p (some ops) priv ≡ (err e, d, p, [])
unfolding pin_register
pin_register-err mem mem' d p ops priv e can h =
    ground (arith, register_refs-err mem mem' d p (owner ops.address priv) e can)

-- Past its tests the call is that of `__dpll_pin_register`.
pin_register-success :
    (mem mem' : Memory) (d : Device) (p : Pin) (ops : PinOps) (priv : ℕ)
    → (pin_register mem mem' d p (some ops) priv).0 ≡ success
    → pin_register mem mem' d p (some ops) priv
      ≡ register_refs mem mem' d p (owner ops.address priv)
unfolding pin_register
pin_register-success mem mem' d p ops priv h = ground arith

-- `dpll_pin_unregister` after a `dpll_pin_register` that succeeded restores both tables, where they
-- did not have the registration and no count in them was 0, and the pin has no parents; the pin's
-- mark is then set exactly if it is still linked to some device.
pub pin_unregister-pin_register :
    (mem mem' : Memory) (d : Device) (p : Pin) (ops : PinOps) (priv : ℕ)
    → CanLink d p (owner ops.address priv)
    → p.parent_refs ≡ []
    → (pin_register mem mem' d p (some ops) priv).0 ≡ success
    → let (r, d', p', ntf) = pin_register mem mem' d p (some ops) priv in
      pin_unregister d' p' ops.address priv
      ≡ (d, record p { registered = not (is_empty p.dpll_refs) }, pin_deleted p.id ∷ [])
unfolding pin_unregister unregister_refs
pin_unregister-pin_register mem mem' d p ops priv can root h =
    let reg : Registration = owner ops.address priv in
    let same = pin_register-success mem mem' d p ops priv h in
    let (a, b, done) = register_refs-success mem mem' d p reg (rw same at h) in
    let back =
      ref_del-ref_add mem d.pin_refs p.id p.pin_idx reg can.device_held can.device_fresh a in
    let back' = ref_del-ref_add mem' p.dpll_refs d.id d.id reg can.pin_held can.pin_fresh b in
    let full =
      nonempty_of_del (ref_add mem d.pin_refs p.id p.pin_idx reg).1 d.pin_refs p.id reg back in
    rw (same, done) (ground (arith, root, full, back, back'))
