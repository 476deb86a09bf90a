-- ===== src/Bus/Devices/Lifetime.antt =====
-- Devices come and go with their fake PCI devices, and the counter of the bus keeps up with them.
use netdevsim_dkms.Base.{
  ℕ, suc, ◌+◌, ◌≡◌, refl, ◌∙◌, true, false, inl, inr, Option, none, some, List, [], ◌∷◌, arith, ok,
  err, Status, length, length-append, bit, Option-cases, ap, subst, pos,
}
use netdevsim_dkms.Bus.Pci.{Host}
use netdevsim_dkms.Bus.Devices.{
  BusDev, Bus, Request, Answers, request_of, bus_dev_new, new_device, bus_dev_del, int_dec,
  find_device, delete_device, del_device, delete_all, bus_exit, bus_init, Call, create, delete, run,
}

-- The counter is the number of devices, and 1 for the bus itself while it is enabled.
pub record IsCounted (b : Bus) : Type 0 where
  pub counted : b.refs ≡ pos (bit b.enabled + length b.devices)

length-delete_device :
    (i : ℕ) (ds : List BusDev) (d : BusDev)
    → find_device i ds ≡ some d
    → length ds ≡ suc (length (delete_device i ds))
unfolding find_device delete_device
length-delete_device i [] d h = ground arith
length-delete_device i (x ∷ ds) d h = ground (arith, length-delete_device i ds d)

pub new_device-IsCounted :
    (ans : Answers) (n : ℕ) (r : Request) (b b' : Bus) (s : Status)
    → IsCounted b
    → new_device ans n r b ≡ some (s, b')
    → IsCounted b'
unfolding new_device
new_device-IsCounted ans n r b b' s v h = record { counted = count }
  where
    count : b'.refs ≡ pos (bit b'.enabled + length b'.devices)
    count = elim (Option-cases (request_of n r)) [
      | inl e ↦ ground (arith, e, v.counted)
      | inr (r', e) ↦ elim (Option-cases (bus_dev_new ans r' b.host)) [
        | inl f ↦ ground (arith, e, f, v.counted)
        | inr ((err x, h'), f) ↦ ground (arith, e, f, v.counted)
        | inr ((ok d, h'), f) ↦
            ground (arith, e, f, v.counted, length-append b.devices (record d { init = true } ∷ []))
      ]
    ]

pub del_device-IsCounted : (i : Option ℕ) (b : Bus) → IsCounted b → IsCounted (del_device i b).1
unfolding del_device bus_dev_del
del_device-IsCounted i b v = record { counted = count i }
  where
    count :
        (i : Option ℕ)
        → (del_device i b).1.refs
          ≡ pos (bit (del_device i b).1.enabled + length (del_device i b).1.devices)
    count none = v.counted
    count (some i) = elim (Option-cases (find_device i b.devices)) [
      | inl e ↦ ground (arith, e, v.counted)
      | inr (d, e) ↦ ground (arith, e, v.counted, length-delete_device i b.devices d e)
    ]

delete_all-refs :
    (ds : List BusDev) (b : Bus)
    → b.devices ≡ ds
    → b.refs ≡ pos (length ds)
    → ((delete_all ds b).refs ≡ pos 0) × ((delete_all ds b).devices ≡ [])
unfolding delete_all bus_dev_del
delete_all-refs [] b left count = (count, left)
delete_all-refs (d ∷ ds) b left count =
    delete_all-refs ds (bus_dev_del d (record b { devices = ds })) refl (ap int_dec count)

-- The end of a bus whose counter is right lets go of everything: no device is left and the counter is
-- 0, so that the wait for it ends.
bus_exit-refs :
    (b : Bus)
    → IsCounted b
    → b.enabled ≡ true
    → ((bus_exit b).refs ≡ pos 0) × ((bus_exit b).devices ≡ [])
unfolding bus_exit
bus_exit-refs b v on =
    let full : b.refs ≡ pos (suc (length b.devices)) = ground (arith, v.counted, on) in
    delete_all-refs b.devices (record b { enabled = false; refs = int_dec b.refs }) refl
      (ap int_dec full)

new_device-enabled :
    (ans : Answers) (n : ℕ) (r : Request) (b b' : Bus) (s : Status)
    → new_device ans n r b ≡ some (s, b')
    → b'.enabled ≡ b.enabled
unfolding new_device
new_device-enabled ans n r b b' s h = ground arith

del_device-enabled : (i : Option ℕ) (b : Bus) → (del_device i b).1.enabled ≡ b.enabled
unfolding del_device bus_dev_del
del_device-enabled i b = ground arith

-- After any history of writes to the bus attributes, requests that fail included, none of which reads
-- freed memory, the counter of the bus is 1 more than the number of its devices; and the end of the bus then
-- leaves no device and a counter of 0, so that the wait for it ends.
pub bus_exit-run :
    (cs : List Call) (h : Host) (b : Bus)
    → run cs (bus_init h) ≡ some b
    → (b.refs ≡ pos (suc (length b.devices)))
      × ((bus_exit b).refs ≡ pos 0)
      × ((bus_exit b).devices ≡ [])
unfolding run bus_init
bus_exit-run cs h b e = go cs (bus_init h) (record { counted = refl }) refl e
  where
    go :
        (cs : List Call) (a : Bus)
        → IsCounted a
        → a.enabled ≡ true
        → run cs a ≡ some b
        → (b.refs ≡ pos (suc (length b.devices)))
          × ((bus_exit b).refs ≡ pos 0)
          × ((bus_exit b).devices ≡ [])
    go [] a v on e =
        let full : a.refs ≡ pos (suc (length a.devices)) = ground (arith, v.counted, on) in
        let (no_refs, no_devices) = bus_exit-refs a v on in
        let same : a ≡ b = ground (arith, e) in
        subst
          (λ (x : Bus).
            (x.refs ≡ pos (suc (length x.devices)))
            × ((bus_exit x).refs ≡ pos 0)
            × ((bus_exit x).devices ≡ []))
          same (full, no_refs, no_devices)
    go (create ans n r ∷ cs) a v on e = elim (Option-cases (new_device ans n r a)) [
      | inl f ↦ absurd (ground (arith, e, f))
      | inr ((s, a'), f) ↦
          go cs a' (new_device-IsCounted ans n r a a' s v f)
            (new_device-enabled ans n r a a' s f ∙ on) (ground (arith, e, f))
    ]
    go (delete i ∷ cs) a v on e =
        go cs (del_device i a).1 (del_device-IsCounted i a v) (del_device-enabled i a ∙ on) e
