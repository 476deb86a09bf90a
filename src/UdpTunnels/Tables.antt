-- ===== src/UdpTunnels/Tables.antt =====
-- The tables of netdevsim/udp_tunnels.c after sets, removals and synchronisation.
use netdevsim_dkms.Base.{
  ℕ, ◌≡◌, ◌<◌, ap, ◌∙◌, List, [], ◌∷◌, arith, ebusy, get_or, set, length, set-set, set-get_or,
  get_or-set_self,
}
use netdevsim_dkms.UdpTunnels.{
  UdpPorts, TunnelInfo, done, injected, refused, entry_of, port_at, write_port, set_port,
  unset_port, sync_from, sync_table,
}

port_at-write_port :
    (table entry v : ℕ) (s : UdpPorts)
    → table < length s.ports
    → entry < length (get_or s.ports table [])
    → port_at table entry (write_port table entry v s) ≡ v
port_at-write_port table entry v s t e =
    let row : List ℕ = get_or s.ports table [] in
    ap (λ r. get_or r entry 0) (get_or-set_self s.ports table (set row entry v) [] t)
    ∙ get_or-set_self row entry v 0 e

write_port-write_port :
    (table entry v w : ℕ) (s : UdpPorts)
    → table < length s.ports
    → write_port table entry w (write_port table entry v s) ≡ write_port table entry w s
write_port-write_port table entry v w s t =
    let row : List ℕ = get_or s.ports table [] in
    let back_again = get_or-set_self s.ports table (set row entry v) [] t in
    ap (λ p. record { inject_error = s.inject_error; ports = p })
      (set-set s.ports table (set row entry v) _
        ∙ ap (λ r. set s.ports table (set r entry w)) back_again
        ∙ ap (λ r. set s.ports table r) (set-set row entry v w))

write_port-port_at :
    (table entry : ℕ) (s : UdpPorts) → write_port table entry (port_at table entry s) s ≡ s
write_port-port_at table entry s =
    let row : List ℕ = get_or s.ports table [] in
    ap (λ p. record { inject_error = s.inject_error; ports = p })
      (ap (λ r. set s.ports table r) (set-get_or row entry 0) ∙ set-get_or s.ports table [])

-- A port that is set in a free entry of a table can be set once only, and its removal restores the
-- tables; no error is injected.
pub unset_port-set_port :
    (table entry : ℕ) (ti : TunnelInfo) (s : UdpPorts)
    → table < length s.ports
    → entry < length (get_or s.ports table [])
    → s.inject_error ≡ 0
    → port_at table entry s ≡ 0
    → 0 < entry_of ti
    → let (answer, s1) = set_port table entry ti s in
      (answer ≡ done)
      × (set_port table entry ti s1 ≡ (refused ebusy, s1))
      × (unset_port table entry ti s1 ≡ (done, s))
unfolding set_port unset_port
unset_port-set_port table entry ti s t e none free used =
    let s1 : UdpPorts = write_port table entry (entry_of ti) s in
    let there = port_at-write_port table entry (entry_of ti) s t e in
    let cleared = write_port-write_port table entry (entry_of ti) 0 s t in
    let back = write_port-port_at table entry s in
    ground (arith, none, free, used, there, cleared, back)

-- An error that is injected is answered once: the call has no effect on the tables, and the same call
-- again does what it does without an injected error.
pub set_port-injected :
    (table entry : ℕ) (ti : TunnelInfo) (s : UdpPorts)
    → 0 < s.inject_error
    → let (answer, s1) = set_port table entry ti s in
      (answer ≡ injected s.inject_error)
      × (s1.ports ≡ s.ports)
      × (set_port table entry ti s1 ≡ set_port table entry ti (record s { inject_error = 0 }))
unfolding set_port
set_port-injected table entry ti s some_error = ground (arith, some_error)

-- The entries of a table as the kernel has them.
abbrev pub rows : (ℕ → TunnelInfo) → List ℕ
rows nic = entry_of (nic 0) ∷ entry_of (nic 1) ∷ entry_of (nic 2) ∷ entry_of (nic 3) ∷ []

-- Synchronising one of two tables of four entries makes it the kernel's and leaves the other one, also
-- where the call is answered with an injected error.
pub sync_table-rows :
    (nic : ℕ → TunnelInfo) (a0 a1 a2 a3 b0 b1 b2 b3 error : ℕ)
    → let row_a : List ℕ = a0 ∷ a1 ∷ a2 ∷ a3 ∷ [] in
      let row_b : List ℕ = b0 ∷ b1 ∷ b2 ∷ b3 ∷ [] in
      let s : UdpPorts = record { inject_error = error; ports = row_a ∷ row_b ∷ [] } in
      ((sync_table 0 nic s).1.ports ≡ rows nic ∷ row_b ∷ [])
      × ((sync_table 1 nic s).1.ports ≡ row_a ∷ rows nic ∷ [])
unfolding sync_table sync_from
sync_table-rows nic a0 a1 a2 a3 b0 b1 b2 b3 error = ground arith
