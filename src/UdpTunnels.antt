-- ===== src/UdpTunnels.antt =====
-- The UDP tunnel ports of netdevsim/udp_tunnels.c: two tables of four entries. The messages and the
-- sleep are left out.
pub mod Tables
mod Examples
use netdevsim_dkms.Base.{
  ℕ, zero, suc, ◌+◌, ◌*◌, Bool, true, false, not, List, [], ◌∷◌, ebusy, enoent, einval, Errno, err,
  Status, success, ◌==◌, ◌&&◌, if◌then◌else◌, get_or, set,
}

-- The part of `udp_ports` of `struct netdevsim` that the handlers use.
pub record UdpPorts : Type 0 where
  pub inject_error : ℕ
  pub ports : List (List ℕ)

-- What the handlers read of `struct udp_tunnel_info`, both of 16 bits.
pub record TunnelInfo : Type 0 where
  pub port : ℕ
  pub tunnel_type : ℕ

-- `-inject_error`, or an error of the handler's own.
pub data Answer : Type 0 where
  done : Answer
  injected : ℕ → Answer
  refused : Errno → Answer

abbrev pub entry_of : TunnelInfo → ℕ
entry_of ti = ti.port * 65536 + ti.tunnel_type

abbrev pub port_at : ℕ → ℕ → UdpPorts → ℕ
port_at table entry s = get_or (get_or s.ports table []) entry 0

abbrev pub write_port : ℕ → ℕ → ℕ → UdpPorts → UdpPorts
write_port table entry v s = record s {
  ports = set s.ports table (set (get_or s.ports table []) entry v);
}

unfoldable pub set_port : ℕ → ℕ → TunnelInfo → UdpPorts → Answer × UdpPorts
set_port table entry ti s =
    let s1 : UdpPorts = record s { inject_error = 0 } in
    if not (s.inject_error == 0)
    then (injected s.inject_error, s1)
    else if not (port_at table entry s1 == 0)
    then (refused ebusy, s1)
    else (done, write_port table entry (entry_of ti) s1)

unfoldable pub unset_port : ℕ → ℕ → TunnelInfo → UdpPorts → Answer × UdpPorts
unset_port table entry ti s =
    let s1 : UdpPorts = record s { inject_error = 0 } in
    if not (s.inject_error == 0)
    then (injected s.inject_error, s1)
    else if entry_of ti == port_at table entry s1
    then (done, write_port table entry 0 s1)
    else (refused enoent, s1)

-- The loop of `nsim_udp_tunnel_sync_table` over the entries that are left; `nic` is the kernel's table.
unfoldable pub sync_from : ℕ → ℕ → ℕ → (ℕ → TunnelInfo) → UdpPorts → UdpPorts
sync_from zero table i nic s = s
sync_from (suc n) table i nic s =
    sync_from n table (suc i) nic (write_port table i (entry_of (nic i)) s)

unfoldable pub sync_table : ℕ → (ℕ → TunnelInfo) → UdpPorts → Answer × UdpPorts
sync_table table nic s =
    let s1 : UdpPorts = record s { inject_error = 0 } in
    let s2 = sync_from 4 table 0 nic s1 in
    if s.inject_error == 0 then (done, s2) else (injected s.inject_error, s2)

-- The part of `nsim_udp_tunnels_info_reset_write` before the kernel is told.
unfoldable pub info_reset_write : UdpPorts → UdpPorts
info_reset_write s = record s { ports = (0 ∷ 0 ∷ 0 ∷ 0 ∷ []) ∷ (0 ∷ 0 ∷ 0 ∷ 0 ∷ []) ∷ [] }
