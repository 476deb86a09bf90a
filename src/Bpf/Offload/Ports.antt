-- ===== src/Bpf/Offload/Ports.antt =====
-- A device with its interfaces: what each of them keeps, what they share, and the states that the kernel's
-- calls of netdevsim/bpf.c reach.
use netdevsim_dkms.Base.{
  ℕ, ◌≡◌, Bool, true, false, not, ◌&&◌, ◌||◌, Option, none, some, List, [], ◌∷◌, ◌++◌, Status,
  success, ltb, length, get_or, set,
}
use netdevsim_dkms.Bpf.Maps.{BoundMap}
use netdevsim_dkms.Bpf.Offload.{
  Prog, same_prog, BoundProg, Accept, BindAccept, Netdevsim, disable_tc,
}
use netdevsim_dkms.Bpf.Offload.Calls.{
  Call, command, tc, prepare, translated, destroy, switched, bind_switched, mtu_changed, call,
  keeps_to, bpf_uninit,
}

-- The BPF part of `struct netdevsim`.
pub record Port : Type 0 where
  pub bpf_offloaded : Option Prog
  pub bpf_offloaded_id : ℕ
  pub xdp : Option Prog
  pub xdp_hw : Option Prog
  pub accept : Accept
  pub mtu : ℕ

-- The BPF part of `struct nsim_dev`, with its interfaces and whether a WARN has fired.
pub record NsimDev : Type 0 where
  pub bpf_bound_progs : List BoundProg
  pub bpf_bound_maps : List (ℕ × BoundMap)
  pub prog_id_gen : ℕ
  pub bind : BindAccept
  pub ports : List Port
  pub warned : Bool

-- An interface as `nsim_bpf_init` leaves it, and a device as `nsim_bpf_dev_init` does.
abbrev pub accept_init : Accept
accept_init = record {
  bpf_tc_accept = true;
  bpf_tc_non_bound_accept = false;
  bpf_xdpdrv_accept = true;
  bpf_xdpoffload_accept = true;
  bpf_map_accept = true;
}

abbrev pub bpf_init : ℕ → Port
bpf_init mtu = record {
  bpf_offloaded = none;
  bpf_offloaded_id = 0;
  xdp = none;
  xdp_hw = none;
  accept = accept_init;
  mtu = mtu;
}

abbrev pub bpf_dev_init : NsimDev
bpf_dev_init = record {
  bpf_bound_progs = [];
  bpf_bound_maps = [];
  prog_id_gen = 0;
  bind = record { bpf_bind_accept = true; bpf_bind_verifier_accept = true };
  ports = [];
  warned = false;
}

-- What a call for the interface `i` sees, and what it leaves.
abbrev pub seen : Port → NsimDev → Netdevsim
seen p d = record {
  bpf_bound_progs = d.bpf_bound_progs;
  bpf_bound_maps = d.bpf_bound_maps;
  prog_id_gen = d.prog_id_gen;
  bpf_offloaded = p.bpf_offloaded;
  bpf_offloaded_id = p.bpf_offloaded_id;
  xdp = p.xdp;
  xdp_hw = p.xdp_hw;
  accept = p.accept;
  bind = d.bind;
  mtu = p.mtu;
  warned = d.warned;
}

abbrev pub port_of : Netdevsim → Port
port_of s = record {
  bpf_offloaded = s.bpf_offloaded;
  bpf_offloaded_id = s.bpf_offloaded_id;
  xdp = s.xdp;
  xdp_hw = s.xdp_hw;
  accept = s.accept;
  mtu = s.mtu;
}

abbrev pub no_port : Port
no_port = bpf_init 0

abbrev pub interface_at : ℕ → NsimDev → Port
interface_at i d = get_or d.ports i no_port

unfoldable pub load : ℕ → NsimDev → Netdevsim
load i d = seen (interface_at i d) d

unfoldable pub store : ℕ → Netdevsim → NsimDev → NsimDev
store i s d = record {
  bpf_bound_progs = s.bpf_bound_progs;
  bpf_bound_maps = s.bpf_bound_maps;
  prog_id_gen = s.prog_id_gen;
  bind = s.bind;
  ports = set d.ports i (port_of s);
  warned = s.warned;
}

-- A program is attached to an interface of a list.
unfoldable pub attached_to : List Port → Prog → Bool
attached_to [] q = false
attached_to (p ∷ ps) q = same_prog p.bpf_offloaded (some q) || attached_to ps q

-- What the kernel keeps to, for a call for the interface `i`: a program that is prepared or destroyed is
-- attached to no interface of the device.
abbrev pub dev_keeps_to : ℕ → Call → NsimDev → Bool
dev_keeps_to i (destroy p) d = ltb i (length d.ports) && not (attached_to d.ports p)
dev_keeps_to i (command bpf) d = ltb i (length d.ports) && keeps_to (command bpf) (load i d)
dev_keeps_to i (tc r) d = ltb i (length d.ports) && keeps_to (tc r) (load i d)
dev_keeps_to i (prepare state_mem ddir p) d = ltb i (length d.ports) && not (attached_to d.ports p)
dev_keeps_to i (translated p) d = ltb i (length d.ports)
dev_keeps_to i (switched a) d = ltb i (length d.ports)
dev_keeps_to i (bind_switched a) d = ltb i (length d.ports)
dev_keeps_to i (mtu_changed n) d = ltb i (length d.ports)

unfoldable pub dev_call :
    (Option Prog → Option Prog → Option Prog) → ℕ → Call → NsimDev → Status × NsimDev
dev_call attach i c d = let r = call attach c (load i d) in (r.0, store i r.1 d)

-- The states that the kernel's calls reach, with interfaces that come and go. An interface goes once
-- nothing is attached there, and leaves its place empty.
pub data Reaches (attach : Option Prog → Option Prog → Option Prog) : NsimDev → Type 0 where
  init : Reaches attach bpf_dev_init
  added :
      {d : NsimDev}
      → Reaches attach d
      → (mtu : ℕ) → Reaches attach (record d { ports = d.ports ++ bpf_init mtu ∷ [] })
  calls :
      {d : NsimDev}
      → Reaches attach d
      → (i : ℕ) → (c : Call) → dev_keeps_to i c d ≡ true
      → Reaches attach (dev_call attach i c d).1
  gone :
      {d : NsimDev}
      → Reaches attach d
      → (i : ℕ) → disable_tc (load i d) ≡ success
      → (interface_at i d).xdp ≡ none
      → (interface_at i d).xdp_hw ≡ none
      → Reaches attach
          (record d { ports = set d.ports i no_port; warned = (bpf_uninit (load i d)).warned })
