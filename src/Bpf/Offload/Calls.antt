-- ===== src/Bpf/Offload/Calls.antt =====
-- The calls that reach the BPF part of a netdevsim: `nsim_bpf` of netdevsim/bpf.c with its commands, the
-- TC callback, the operations on bound programs and the switches, and what the kernel keeps to when it
-- makes them.
use netdevsim_dkms.Base.{
  ℕ, Bool, true, false, not, ◌&&◌, ◌||◌, Option, none, some, List, [], ◌∷◌, ◌++◌, eopnotsupp,
  einval, ok, err, Status, success, ◌==◌, ltb, if◌then◌else◌,
}
use netdevsim_dkms.Bpf.Maps.{BoundMap, MapType, map_alloc}
use netdevsim_dkms.Bpf.Offload.{
  Prog, is_same, is_prog, ProgState, verify, xlated, BoundProg, Accept, BindAccept, Netdevsim,
  TcRequest, setup_tc_block_cb, xdp_set_prog, xdp_set_prog_hw, verifier_prep, translate,
  destroy_prog,
}

abbrev offload_set : Option Prog → Bool
offload_set none = false
offload_set (some p) = p.has_offload

unfoldable pub setup_prog_checks : Option Prog → Netdevsim → Status
setup_prog_checks prog s =
    if offload_set prog then err einval else if ltb 4000 s.mtu then err einval else success

abbrev pub is_xlated : ProgState → Bool
is_xlated verify = false
is_xlated xlated = true

-- Whether the state of a program, at `prog->aux->offload->dev_priv`, is "xlated".
unfoldable pub xlated_in : Prog → List BoundProg → Bool
xlated_in p [] = false
xlated_in p (b ∷ bs) = if is_same p b.prog then is_xlated b.state else xlated_in p bs

unfoldable pub setup_prog_hw_checks : Option Prog → Netdevsim → Status × Netdevsim
setup_prog_hw_checks none s = (success, s)
setup_prog_hw_checks (some p) s =
    if not p.is_offloaded
    then (err einval, s)
    else if not (xlated_in p s.bpf_bound_progs)
    then (err einval, record s { warned = true })
    else (success, s)

unfoldable pub bpf_map_alloc :
    ℕ → Bool → (ℕ → Bool × Bool) → MapType → ℕ → ℕ → Netdevsim → Status × Netdevsim
bpf_map_alloc key nmap_mem mem t max_entries map_flags s =
    elim (map_alloc nmap_mem mem t max_entries map_flags) [
      | err e ↦ (err e, s)
      | ok m ↦ (success, record s { bpf_bound_maps = s.bpf_bound_maps ++ (key, m) ∷ [] })
    ]

unfoldable pub unlink_map : ℕ → List (ℕ × BoundMap) → List (ℕ × BoundMap)
unlink_map key [] = []
unlink_map key ((k, m) ∷ ms) = if key == k then ms else (k, m) ∷ unlink_map key ms

unfoldable pub bpf_map_free : ℕ → Netdevsim → Netdevsim
bpf_map_free key s = record s { bpf_bound_maps = unlink_map key s.bpf_bound_maps }

-- `struct netdev_bpf`, by its command.
pub data NetdevBpf : Type 0 where
  setup_prog : Option Prog → NetdevBpf
  setup_prog_hw : Option Prog → NetdevBpf
  offload_map_alloc : ℕ → Bool → (ℕ → Bool × Bool) → MapType → ℕ → ℕ → NetdevBpf
  offload_map_free : ℕ → NetdevBpf
  other_command : NetdevBpf

unfoldable pub nsim_bpf :
    (Option Prog → Option Prog → Option Prog) → NetdevBpf → Netdevsim → Status × Netdevsim
nsim_bpf attach (setup_prog prog) s = elim (setup_prog_checks prog s) [
  | err e ↦ (err e, s)
  | ok u ↦ xdp_set_prog attach prog s
]
nsim_bpf attach (setup_prog_hw prog) s =
    let (status, s') = setup_prog_hw_checks prog s in
    elim status [ err e ↦ (err e, s') | ok u ↦ xdp_set_prog_hw attach prog s' ]
nsim_bpf attach (offload_map_alloc key nmap_mem mem t max_entries map_flags) s =
    if not s.accept.bpf_map_accept
    then (err eopnotsupp, s)
    else bpf_map_alloc key nmap_mem mem t max_entries map_flags s
nsim_bpf attach (offload_map_free key) s = (success, bpf_map_free key s)
nsim_bpf attach other_command s = (err einval, s)

pub data Call : Type 0 where
  command : NetdevBpf → Call
  tc : TcRequest → Call
  prepare : Bool → Status → Prog → Call
  translated : Prog → Call
  destroy : Prog → Call
  switched : Accept → Call
  bind_switched : BindAccept → Call
  mtu_changed : ℕ → Call

unfoldable pub call :
    (Option Prog → Option Prog → Option Prog) → Call → Netdevsim → Status × Netdevsim
call attach (command bpf) s = nsim_bpf attach bpf s
call attach (tc r) s = setup_tc_block_cb r s
call attach (prepare state_mem ddir p) s = verifier_prep state_mem ddir p s
call attach (translated p) s = translate p s
call attach (destroy p) s = (success, destroy_prog p s)
call attach (switched a) s = (success, record s { accept = a })
call attach (bind_switched a) s = (success, record s { bind = a })
call attach (mtu_changed n) s = (success, record s { mtu = n })

abbrev pub is_tc_prog : Option Prog → Bool
is_tc_prog none = true
is_tc_prog (some p) = not p.is_xdp

-- What the kernel keeps to: TC hands over TC programs and XDP hands over XDP programs that are
-- translated. What it keeps to when it prepares or
-- destroys a program is in the module Ports.
unfoldable pub keeps_to : Call → Netdevsim → Bool
keeps_to (command (setup_prog prog)) s = true
keeps_to (command (setup_prog_hw none)) s = true
keeps_to (command (setup_prog_hw (some p))) s = p.is_xdp && xlated_in p s.bpf_bound_progs
keeps_to (command (offload_map_alloc key nmap_mem mem t max_entries map_flags)) s = true
keeps_to (command (offload_map_free key)) s = true
keeps_to (command other_command) s = true
keeps_to (tc r) s = is_tc_prog r.prog && is_tc_prog r.oldprog
keeps_to (prepare state_mem ddir p) s = true
keeps_to (translated p) s = true
keeps_to (destroy p) s = true
keeps_to (switched a) s = true
keeps_to (bind_switched a) s = true
keeps_to (mtu_changed n) s = true

unfoldable pub bpf_uninit : Netdevsim → Netdevsim
bpf_uninit s = record s {
  warned = s.warned || is_prog s.xdp || is_prog s.xdp_hw || is_prog s.bpf_offloaded;
}
