-- ===== src/Dev/Ports/Loops.antt =====
-- What the loops of netdevsim/dev.c that add and delete ports do to the list of ports.
use netdevsim_dkms.Base.{
  ℕ, zero, suc, ◌≡◌, refl, List, [], ◌∷◌, arith, Errno, err, success, if◌then◌else◌, Result-cases,
  inl, inr, ◌⊎◌,
}
use netdevsim_dkms.Dev.Ports.{
  PortType, pf, vf, Port, Dev, dev_port_index, is_vf, PortAnswers, port_add, add_ports, without_vfs,
}

-- The VF ports of a list.
unfoldable pub vf_ports : List Port → List Port
vf_ports [] = []
vf_ports (p ∷ ps) = if is_vf p then p ∷ vf_ports ps else vf_ports ps

-- A list of ports, below the ports `i` to `i + n - 1` of a type, added in this order.
unfoldable pub stacked : PortType → ℕ → ℕ → List Port → List Port
stacked t i zero ps = ps
stacked t i (suc n) ps =
    stacked t (suc i) n (record { port_index = dev_port_index t i; port_type = t } ∷ ps)

abbrev pub with_ports : Dev → List Port → Dev
with_ports d ps = record d { port_list = ps }

pub port_add-cases :
    (t : PortType) (i : ℕ) (a : PortAnswers) (d : Dev)
    → ((e : Errno) × (port_add t i a d ≡ (err e, d)))
      ⊎ (port_add t i a d ≡ (success, with_ports d (stacked t i 1 d.port_list)))
unfolding port_add stacked
port_add-cases t i a d = elim (Result-cases (port_add t i a d).0) [
  | inl (e, q) ↦ inl (e, ground (arith, q))
  | inr (u, q) ↦ inr (ground (arith, q))
]

pub vf_ports-without_vfs : (ps : List Port) → vf_ports (without_vfs ps) ≡ []
unfolding vf_ports without_vfs
vf_ports-without_vfs [] = refl
vf_ports-without_vfs (p ∷ ps) = ground (arith, vf_ports-without_vfs ps)

pub without_vfs-none : (ps : List Port) → vf_ports ps ≡ [] → without_vfs ps ≡ ps
unfolding vf_ports without_vfs
without_vfs-none [] h = refl
without_vfs-none (p ∷ ps) h = ground (arith, h, without_vfs-none ps)

pub without_vfs-stacked :
    (i n : ℕ) (ps : List Port) → without_vfs (stacked vf i n ps) ≡ without_vfs ps
unfolding without_vfs stacked
without_vfs-stacked i zero ps = refl
without_vfs-stacked i (suc n) ps =
    without_vfs-stacked (suc i) n (record { port_index = dev_port_index vf i; port_type = vf } ∷ ps)

pub vf_ports-stacked_vf :
    (i n : ℕ) (ps : List Port) → vf_ports (stacked vf i n ps) ≡ stacked vf i n (vf_ports ps)
unfolding vf_ports stacked
vf_ports-stacked_vf i zero ps = refl
vf_ports-stacked_vf i (suc n) ps =
    vf_ports-stacked_vf (suc i) n (record { port_index = dev_port_index vf i; port_type = vf } ∷ ps)

pub vf_ports-stacked_pf : (i n : ℕ) (ps : List Port) → vf_ports (stacked pf i n ps) ≡ vf_ports ps
unfolding vf_ports stacked
vf_ports-stacked_pf i zero ps = refl
vf_ports-stacked_pf i (suc n) ps =
    vf_ports-stacked_pf (suc i) n (record { port_index = i; port_type = pf } ∷ ps)

pub add_ports-cases :
    (t : PortType) (a : ℕ → PortAnswers) (i n : ℕ) (d : Dev)
    → ((e : Errno) × (k : ℕ) × (add_ports t a i n d
          ≡ (err e, with_ports d (stacked t i k d.port_list))))
      ⊎ (add_ports t a i n d ≡ (success, with_ports d (stacked t i n d.port_list)))
unfolding add_ports stacked
add_ports-cases t a i zero d = inr refl
add_ports-cases t a i (suc n) d = elim (port_add-cases t i (a i) d) [
  | inl (e, q) ↦ inl (e, 0, ground (arith, q))
  | inr q ↦ elim (add_ports-cases t a (suc i) n (with_ports d (stacked t i 1 d.port_list))) [
    | inl (e, k, r) ↦ inl (e, suc k, ground (arith, q, r))
    | inr r ↦ inr (ground (arith, q, r))
  ]
]
