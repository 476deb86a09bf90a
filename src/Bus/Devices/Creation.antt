-- ===== src/Bus/Devices/Creation.antt =====
-- A device of the bus and its fake PCI device: how they are made, and how they are taken back.
use netdevsim_dkms.Base.{
  ℕ, ◌≡◌, ap, ◌∙◌, true, false, ◌⊎◌, inl, inr, none, some, List, [], ◌∷◌, ◌++◌, arith, Errno, ok,
  err, success, ltb, Option-cases, Result-cases,
}
use netdevsim_dkms.Bus.Pci.{Host, create_fake_pci_device, remove_fake_pci_device}
use netdevsim_dkms.Bus.Pci.Tracking.{remove-create}
use netdevsim_dkms.Bus.Devices.{
  PciAddr, BusDev, Bus, Request, Answers, request_of, parse_pci_address, bus_dev_of, bus_dev_new,
  new_device, bus_dev_del, int_inc, int_dec-int_inc, find_device, delete_device, del_device,
  int_max,
}

-- What a creation that succeeded has done.
bus_dev_new-success :
    (ans : Answers) (r : Request) (h h' : Host) (d : BusDev)
    → bus_dev_new ans r h ≡ some (ok d, h')
    → (a : PciAddr) × (d ≡ bus_dev_of r a)
      × (create_fake_pci_device ans.fake_mem ans.probed a.domain a.bus a.device a.function h
          ≡ (success, h'))
unfolding bus_dev_new
bus_dev_new-success ans r h h' d e = elim (Result-cases (parse_pci_address r.addr)) [
  | inl (x, p) ↦ absurd (ground (arith, e, p))
  | inr (a, p) ↦ (a, ground (arith, e, p), ground (arith, e, p))
]

-- The bug: where the device and its fake PCI device are made and the id is refused, or then
-- `device_register` fails, the way out reads the address from the device after it was freed, or
-- through NULL.
pub bus_dev_new-freed :
    (ans : Answers) (r : Request) (a : PciAddr) (h h' : Host) (e : Errno)
    → ans.mem ≡ true
    → parse_pci_address r.addr ≡ ok a
    → create_fake_pci_device ans.fake_mem ans.probed a.domain a.bus a.device a.function h
      ≡ (success, h')
    → (ans.ida ≡ err e) ⊎ (ans.registered ≡ err e)
    → bus_dev_new ans r h ≡ none
unfolding bus_dev_new
bus_dev_new-freed ans r a h h' e m p c (inl f) = ground (arith, m, p, c, f)
bus_dev_new-freed ans r a h h' e m p c (inr f) = ground (arith, m, p, c, f)

find-last :
    (i : ℕ) (ds : List BusDev) (d : BusDev)
    → find_device i ds ≡ none
    → d.id ≡ i
    → (find_device i (ds ++ d ∷ []) ≡ some d) × (delete_device i (ds ++ d ∷ []) ≡ ds)
unfolding find_device delete_device
find-last i [] d n e = ground (arith, e)
find-last i (x ∷ ds) d n e = ground (arith, e, find-last i ds d)

request_of-id :
    (n : ℕ) (r r' : Request)
    → request_of n r ≡ some r'
    → (r'.id ≡ r.id) × (ltb int_max r.id ≡ false)
unfolding request_of
request_of-id n r r' h = ground arith

-- What a `new_device_store` that succeeded has done.
new_device-success :
    (ans : Answers) (n : ℕ) (r : Request) (b b' : Bus)
    → new_device ans n r b ≡ some (success, b')
    → (r' : Request) × (d : BusDev) × (h : Host) × (request_of n r ≡ some r')
      × (b.enabled ≡ true)
      × (bus_dev_new ans r' b.host ≡ some (ok d, h))
      × (b' ≡ record b {
        host = h;
        devices = b.devices ++ record d { init = true } ∷ [];
        refs = int_inc b.refs;
      })
unfolding new_device
new_device-success ans n r b b' e = elim (Option-cases (request_of n r)) [
  | inl f ↦ absurd (ground (arith, e, f))
  | inr (r', f) ↦ elim (Option-cases (bus_dev_new ans r' b.host)) [
    | inl g ↦ absurd (ground (arith, e, f, g))
    | inr ((err x, h), g) ↦ absurd (ground (arith, e, f, g))
    | inr ((ok d, h), g) ↦ (r', d, h, f, ground (arith, e, f, g), g, ground (arith, e, f, g))
  ]
]

-- The deletion of a device at the end of the list.
del_device-last :
    (i : ℕ) (d : BusDev) (b : Bus) (h : Host)
    → b.enabled ≡ true
    → ltb int_max i ≡ false
    → find_device i b.devices ≡ none
    → d.id ≡ i
    → let a = d.pci_addr in
      remove_fake_pci_device a.domain a.bus a.device a.function h ≡ (success, b.host)
      → del_device
          (some i)
          (record b { host = h; devices = b.devices ++ d ∷ []; refs = int_inc b.refs })
        ≡ (success, b)
unfolding del_device bus_dev_del
del_device-last i d b h on small free named back =
    ground (arith, on, small, back, int_dec-int_inc b.refs, find-last i b.devices d free named)

-- Where the root bus has the module's number and the id is free, a `del_device_store` after a
-- `new_device_store` that succeeded restores the bus: devices, fake devices and counter.
pub del_device-new_device :
    (ans : Answers) (n : ℕ) (r : Request) (b b' : Bus)
    → b.host.root_number ≡ b.host.pci_bus_nr
    → find_device r.id b.devices ≡ none
    → new_device ans n r b ≡ some (success, b')
    → del_device (some r.id) b' ≡ (success, b)
del_device-new_device ans n r b b' same free done =
    let (r', d, h, f, on, made, now) = new_device-success ans n r b b' done in
    let (a, which, fake) = bus_dev_new-success ans r' b.host h d made in
    let (named, small) = request_of-id n r r' f in
    let made_fake = ap (λ x. x.0) fake in
    let back =
      remove-create ans.fake_mem ans.probed a.domain a.bus a.device a.function b.host same
        made_fake in
    let back' : remove_fake_pci_device a.domain a.bus a.device a.function h ≡ (success, b.host) =
      rw fake at back in
    let d' : BusDev = record d { init = true } in
    ap (λ x. del_device (some r.id) x) now
    ∙ del_device-last r.id d' b h on small free (ground (arith, which, named)) (rw which back')
