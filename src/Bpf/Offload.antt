-- ===== src/Bpf/Offload.antt =====
-- The programs that netdevsim/bpf.c offloads: the states of the programs bound to the device, the program
-- that TC or XDP attached, and the calls of the kernel that reach them. What the kernel's helpers, the
-- allocators and debugfs answer is an argument; `attach` is `xdp_attachment_setup` of the kernel, which
-- gives the program that an attachment holds from the one it held and the new one.
pub mod Calls
pub mod Ports
pub mod Attaching
pub mod Consistency
pub mod Sharing
pub mod Marking
pub mod Reaching
mod Examples
use netdevsim_dkms.Base.{
  ℕ, suc, ◌+◌, ◌-◌, ◌%◌, ◌^◌, Bool, true, false, not, ◌&&◌, ◌||◌, Option, none, some, List, [], ◌∷◌,
  ◌++◌, eopnotsupp, ebusy, einval, enomem, Result, ok, err, Status, success, ◌==◌, ltb,
  if◌then◌else◌,
}
use netdevsim_dkms.Bpf.Maps.{BoundMap, MapType, map_alloc}

-- `struct bpf_prog`: a program is known by its number and by whether it is an XDP program. `has_offload`
-- says whether `aux->offload` is set, `is_offloaded` whether the kernel offloads it.
pub record Prog : Type 0 where
  pub number : ℕ
  pub is_xdp : Bool
  pub id : ℕ
  pub has_offload : Bool
  pub is_offloaded : Bool

abbrev pub same_bool : Bool → Bool → Bool
same_bool true b = b
same_bool false b = not b

abbrev pub is_same : Prog → Prog → Bool
is_same p q = (p.number == q.number) && same_bool p.is_xdp q.is_xdp

-- Two pointers to programs are equal.
abbrev pub same_prog : Option Prog → Option Prog → Bool
same_prog none none = true
same_prog none (some q) = false
same_prog (some p) none = false
same_prog (some p) (some q) = is_same p q

abbrev pub is_prog : Option Prog → Bool
is_prog none = false
is_prog (some p) = true

pub data ProgState : Type 0 where
  verify xlated : ProgState

-- `struct nsim_bpf_bound_prog`
pub record BoundProg : Type 0 where
  pub prog : Prog
  pub state : ProgState
  pub is_loaded : Bool

-- The switches in debugfs of a device, and of an interface.
pub record BindAccept : Type 0 where
  pub bpf_bind_accept : Bool
  pub bpf_bind_verifier_accept : Bool

pub record Accept : Type 0 where
  pub bpf_tc_accept : Bool
  pub bpf_tc_non_bound_accept : Bool
  pub bpf_xdpdrv_accept : Bool
  pub bpf_xdpoffload_accept : Bool
  pub bpf_map_accept : Bool

-- What a call for one interface reads and writes: the BPF part of `struct netdevsim`, and through `nsim_dev`
-- the lists, the counter and the switches of its device, which all interfaces of the device share. The
-- module Ports has a device with its interfaces. An offloaded map is known by a number. `warned` says
-- whether a WARN of bpf.c has fired.
pub record Netdevsim : Type 0 where
  pub bpf_bound_progs : List BoundProg
  pub bpf_bound_maps : List (ℕ × BoundMap)
  pub prog_id_gen : ℕ
  pub bpf_offloaded : Option Prog
  pub bpf_offloaded_id : ℕ
  pub xdp : Option Prog
  pub xdp_hw : Option Prog
  pub accept : Accept
  pub bind : BindAccept
  pub mtu : ℕ
  pub warned : Bool

unfoldable pub verify_insn : BindAccept → ℕ → ℕ → Status
verify_insn a insn_idx len =
    if (insn_idx == (len - 1)) && not a.bpf_bind_verifier_accept then err eopnotsupp else success

abbrev pub xdp_offload_active : Netdevsim → Bool
xdp_offload_active s = is_prog s.xdp_hw

-- The states of the programs with the state of `p`, of which there is one, marked.
unfoldable pub mark_loaded : Prog → Bool → List BoundProg → List BoundProg
mark_loaded p loaded [] = []
mark_loaded p loaded (b ∷ bs) =
    (if is_same p b.prog then record b { is_loaded = loaded } else b) ∷ mark_loaded p loaded bs

abbrev pub prog_set_loaded : Option Prog → Bool → List BoundProg → List BoundProg
prog_set_loaded none loaded bs = bs
prog_set_loaded (some p) loaded bs = if not p.is_offloaded then bs else mark_loaded p loaded bs

abbrev pub id_of : Option Prog → ℕ
id_of none = 0
id_of (some p) = p.id

unfoldable pub bpf_offload : Option Prog → Bool → Netdevsim → Status × Netdevsim
bpf_offload prog oldprog s =
    let unloaded = prog_set_loaded s.bpf_offloaded false s.bpf_bound_progs in
    (
      success,
      record s {
        bpf_bound_progs = prog_set_loaded prog true unloaded;
        bpf_offloaded = prog;
        bpf_offloaded_id = id_of prog;
        warned = s.warned || not (same_bool (is_prog s.bpf_offloaded) oldprog);
      },
    )

-- `struct tc_cls_bpf_offload`, with the type of the request, whether the device can offload it and
-- whether its protocol is ETH_P_ALL.
pub record TcRequest : Type 0 where
  pub is_clsbpf : Bool
  pub can_offload : Bool
  pub protocol_all : Bool
  pub command_offload : Bool
  pub prog : Option Prog
  pub oldprog : Option Prog

abbrev pub has_no_offload : Option Prog → Bool
has_no_offload none = false
has_no_offload (some p) = not p.has_offload

unfoldable pub setup_tc_block_cb : TcRequest → Netdevsim → Status × Netdevsim
setup_tc_block_cb r s =
    if not r.is_clsbpf
    then (err eopnotsupp, s)
    else if not r.can_offload
    then (err eopnotsupp, s)
    else if not r.protocol_all
    then (err eopnotsupp, s)
    else if not s.accept.bpf_tc_accept
    then (err eopnotsupp, s)
    else if has_no_offload r.prog && not s.accept.bpf_tc_non_bound_accept
    then (err eopnotsupp, s)
    else if not r.command_offload
    then (err eopnotsupp, s)
    else if not (same_prog s.bpf_offloaded r.oldprog)
    then if not (is_prog r.prog)
      then (success, s)
      else if is_prog s.bpf_offloaded
      then (err ebusy, s)
      else bpf_offload r.prog false s
    else bpf_offload r.prog (is_prog r.oldprog) s

unfoldable pub disable_tc : Netdevsim → Status
disable_tc s = if is_prog s.bpf_offloaded && not (xdp_offload_active s) then err ebusy else success

unfoldable pub xdp_offload_prog : Option Prog → Netdevsim → Status × Netdevsim
xdp_offload_prog prog s =
    if not (xdp_offload_active s) && not (is_prog prog)
    then (success, s)
    else if not (xdp_offload_active s) && is_prog prog && is_prog s.bpf_offloaded
    then (err ebusy, s)
    else bpf_offload prog (xdp_offload_active s) s

-- `nsim_xdp_set_prog` with the command XDP_SETUP_PROG, and with XDP_SETUP_PROG_HW.
unfoldable pub xdp_set_prog :
    (Option Prog → Option Prog → Option Prog) → Option Prog → Netdevsim → Status × Netdevsim
xdp_set_prog attach prog s =
    if not s.accept.bpf_xdpdrv_accept
    then (err eopnotsupp, s)
    else (success, record s { xdp = attach s.xdp prog })

unfoldable pub xdp_set_prog_hw :
    (Option Prog → Option Prog → Option Prog) → Option Prog → Netdevsim → Status × Netdevsim
xdp_set_prog_hw attach prog s =
    let (status, s') = xdp_offload_prog prog s in
    if not s.accept.bpf_xdpoffload_accept then (err eopnotsupp, s) else elim status [
      | err e ↦ (err e, s')
      | ok u ↦ (success, record s' { xdp_hw = attach s'.xdp_hw prog })
    ]

-- `state_mem` says whether the state is allocated, `ddir` what debugfs answers.
unfoldable pub create_prog : Bool → Status → Prog → Netdevsim → Status × Netdevsim
create_prog state_mem ddir p s =
    if not state_mem
    then (err enomem, s)
    else (let s' = record s { prog_id_gen = (s.prog_id_gen + 1) % 2 ^ 32 } in
        elim ddir [
          | err e ↦ (err e, s')
          | ok u ↦
              let b : BoundProg = record { prog = p; state = verify; is_loaded = false } in
              (success, record s' { bpf_bound_progs = s.bpf_bound_progs ++ b ∷ [] })
        ])

unfoldable pub verifier_prep : Bool → Status → Prog → Netdevsim → Status × Netdevsim
verifier_prep state_mem ddir p s =
    if not s.bind.bpf_bind_accept then (err eopnotsupp, s) else create_prog state_mem ddir p s

unfoldable pub mark_xlated : Prog → List BoundProg → List BoundProg
mark_xlated p [] = []
mark_xlated p (b ∷ bs) =
    (if is_same p b.prog then record b { state = xlated } else b) ∷ mark_xlated p bs

unfoldable pub translate : Prog → Netdevsim → Status × Netdevsim
translate p s = (success, record s { bpf_bound_progs = mark_xlated p s.bpf_bound_progs })

unfoldable pub loaded_in : Prog → List BoundProg → Bool
loaded_in p [] = false
loaded_in p (b ∷ bs) = if is_same p b.prog then b.is_loaded else loaded_in p bs

unfoldable pub unlink_prog : Prog → List BoundProg → List BoundProg
unlink_prog p [] = []
unlink_prog p (b ∷ bs) = if is_same p b.prog then bs else b ∷ unlink_prog p bs

unfoldable pub destroy_prog : Prog → Netdevsim → Netdevsim
destroy_prog p s = record s {
  bpf_bound_progs = unlink_prog p s.bpf_bound_progs;
  warned = s.warned || loaded_in p s.bpf_bound_progs;
}
