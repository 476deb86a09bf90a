-- ===== src/UdpTunnels/Examples.antt =====
-- Concrete runs of netdevsim/udp_tunnels.c.
use netdevsim_dkms.Base.{ℕ, ◌+◌, [], ◌∷◌}
use netdevsim_dkms.UdpTunnels.{UdpPorts, TunnelInfo}

-- VXLAN at port 4789.
abbrev vxlan : TunnelInfo
vxlan = record { port = 4789; tunnel_type = 1 }

abbrev one_port : UdpPorts
one_port = record {
  inject_error = 0;
  ports = (313851905 ∷ 0 ∷ 0 ∷ 0 ∷ []) ∷ (0 ∷ 0 ∷ 0 ∷ 0 ∷ []) ∷ [];
}

abbrev nic : ℕ → TunnelInfo
nic i = record { port = 4789 + i; tunnel_type = 1 }
