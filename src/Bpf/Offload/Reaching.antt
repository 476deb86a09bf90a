-- ===== src/Bpf/Offload/Reaching.antt =====
-- What the calls of the kernel do to the BPF part of a netdevsim, in netdevsim/bpf.c, in the states that
-- they reach.
use netdevsim_dkms.Base.{
  ℕ, ◌≡◌, refl, ap, subst, ◌∙◌, Bool, true, false, not, Option, none, some, arith, Errno, err,
  Status, Bool-cases, Result-cases, inl, inr, get_or-set_self,
}
use netdevsim_dkms.Bpf.Maps.{map_alloc}
use netdevsim_dkms.Bpf.Offload.{
  Prog, is_prog, Netdevsim, bpf_offload, TcRequest, setup_tc_block_cb, xdp_offload_prog,
  xdp_set_prog, xdp_set_prog_hw, create_prog, verifier_prep, translate,
}
use netdevsim_dkms.Bpf.Offload.Calls.{
  setup_prog_checks, setup_prog_hw_checks, xlated_in, bpf_map_alloc, setup_prog, setup_prog_hw,
  offload_map_alloc, offload_map_free, other_command, nsim_bpf, Call, command, tc, prepare,
  translated, destroy, switched, bind_switched, mtu_changed, call, keeps_to,
}
use netdevsim_dkms.Bpf.Offload.Ports.{
  Port, NsimDev, no_port, interface_at, port_of, load, store, dev_keeps_to, dev_call, Reaches,
}
use netdevsim_dkms.Bpf.Offload.Consistency.{IsHeld, IsConsistent, tc_served, hw_served}
use netdevsim_dkms.Bpf.Offload.Sharing.{
  elsewhere, load-IsConsistent, dev_keeps_to-destroys_idle, Reaches-IsSound,
}

-- A call that would change the program of the other side.
abbrev pub is_other_side : Bool → Call → Bool
is_other_side true (tc r) = true
is_other_side false (tc r) = false
is_other_side xdp (command (setup_prog p)) = false
is_other_side xdp (command (setup_prog_hw p)) = not xdp
is_other_side xdp (command (offload_map_alloc k n m t e f)) = false
is_other_side xdp (command (offload_map_free k)) = false
is_other_side xdp (command other_command) = false
is_other_side xdp (prepare m d p) = false
is_other_side xdp (translated p) = false
is_other_side xdp (destroy p) = false
is_other_side xdp (switched a) = false
is_other_side xdp (bind_switched a) = false
is_other_side xdp (mtu_changed n) = false

held_is_xdp : (hw : Option Prog) (q : Prog) → IsHeld hw (some q) → q.is_xdp ≡ is_prog hw
unfolding IsHeld
held_is_xdp none q h = ground (arith, h)
held_is_xdp (some p) q (at, x) = ground (arith, at, x)

one_side-keeps :
    (elsewhere : Prog → Bool) (attach : Option Prog → Option Prog → Option Prog) (c : Call)
    (s : Netdevsim) (q : Prog)
    → ((old new : Option Prog) → attach old new ≡ new)
    → IsConsistent elsewhere s
    → keeps_to c s ≡ true
    → s.bpf_offloaded ≡ some q
    → is_other_side q.is_xdp c ≡ true
    → (call attach c s).1.bpf_offloaded ≡ some q
unfolding call keeps_to
one_side-keeps f attach (tc r) s q new c allowed at other =
    let xdp = held_is_xdp s.xdp_hw q (subst (IsHeld s.xdp_hw) at c.held) in
    elim (tc_served r s c.held (ground (arith, allowed))) [
      | inl e ↦ ap (λ t. t.bpf_offloaded) e ∙ at
      | inr (gone, e) ↦ ground (arith, gone, xdp, other)
    ]
one_side-keeps f attach (command (setup_prog_hw prog)) s q new c allowed at other =
    let xdp = held_is_xdp s.xdp_hw q (subst (IsHeld s.xdp_hw) at c.held) in
    elim (hw_served attach prog s new c.held allowed) [
      | inl e ↦ ap (λ t. t.bpf_offloaded) e ∙ at
      | inr (flag, e) ↦ ground (arith, flag, xdp, other, ap is_prog at)
    ]
one_side-keeps f attach (command (setup_prog p)) s q new c allowed at other = ground (arith, other)
one_side-keeps f attach (command (offload_map_alloc k n m t e g)) s q new c allowed at other =
    ground (arith, other)
one_side-keeps f attach (command (offload_map_free k)) s q new c allowed at other =
    ground (arith, other)
one_side-keeps f attach (command other_command) s q new c allowed at other = ground (arith, other)
one_side-keeps f attach (prepare m d p) s q new c allowed at other = ground (arith, other)
one_side-keeps f attach (translated p) s q new c allowed at other = ground (arith, other)
one_side-keeps f attach (destroy p) s q new c allowed at other = ground (arith, other)
one_side-keeps f attach (switched a) s q new c allowed at other = ground (arith, other)
one_side-keeps f attach (bind_switched a) s q new c allowed at other = ground (arith, other)
one_side-keeps f attach (mtu_changed n) s q new c allowed at other = ground (arith, other)

-- In a state that the kernel's calls reach, with any number of interfaces, a program that TC attached to an
-- interface stays attached there whatever XDP asks for its hardware attachment, and a program that XDP
-- attached stays attached whatever TC requests.
pub other_side-keeps :
    (attach : Option Prog → Option Prog → Option Prog) (i : ℕ) (c : Call) (d : NsimDev) (q : Prog)
    → ((old new : Option Prog) → attach old new ≡ new)
    → Reaches attach d
    → dev_keeps_to i c d ≡ true
    → (interface_at i d).bpf_offloaded ≡ some q
    → is_other_side q.is_xdp c ≡ true
    → (interface_at i (dev_call attach i c d).1).bpf_offloaded ≡ some q
unfolding dev_call store load
other_side-keeps attach i c d q new reach allowed at other =
    let s = Reaches-IsSound attach d new reach in
    let (lt, keeps, idle) = dev_keeps_to-destroys_idle i c d s allowed in
    let after = (call attach c (load i d)).1 in
    ap (λ (p : Port). p.bpf_offloaded) (get_or-set_self d.ports i (port_of after) no_port lt)
    ∙ one_side-keeps (elsewhere i d) attach c (load i d) q new (load-IsConsistent i d s) keeps at
        other

tc-err :
    (r : TcRequest) (s : Netdevsim) (e : Errno)
    → (setup_tc_block_cb r s).0 ≡ err e
    → (setup_tc_block_cb r s).1 ≡ s
unfolding setup_tc_block_cb bpf_offload
tc-err r s e h = ground (arith, h)

xdp_set_prog_hw-err :
    (attach : Option Prog → Option Prog → Option Prog) (prog : Option Prog) (s : Netdevsim)
    (e : Errno)
    → (xdp_set_prog_hw attach prog s).0 ≡ err e
    → (xdp_set_prog_hw attach prog s).1 ≡ s
unfolding xdp_set_prog_hw xdp_offload_prog bpf_offload
xdp_set_prog_hw-err attach prog s e h = ground (arith, h)

-- What a call that fails may change is put back.
abbrev pub unwarned : Netdevsim → Netdevsim → Netdevsim
unwarned s t = record t { prog_id_gen = s.prog_id_gen; warned = s.warned }

setup_prog_hw-err :
    (attach : Option Prog → Option Prog → Option Prog) (prog : Option Prog) (s : Netdevsim)
    (e : Errno)
    → (nsim_bpf attach (setup_prog_hw prog) s).0 ≡ err e
    → unwarned s (nsim_bpf attach (setup_prog_hw prog) s).1 ≡ s
unfolding nsim_bpf setup_prog_hw_checks
setup_prog_hw-err attach none s e h = ap (unwarned s) (xdp_set_prog_hw-err attach none s e h)
setup_prog_hw-err attach (some p) s e h = elim (Bool-cases p.is_offloaded) [
  | inr q ↦ ground (arith, h, q)
  | inl q ↦ elim (Bool-cases (xlated_in p s.bpf_bound_progs)) [
    | inr x ↦ ground (arith, h, q, x)
    | inl x ↦ ground (arith, h, q, x, xdp_set_prog_hw-err attach (some p) s e)
  ]
]

prepare-err :
    (mem : Bool) (ddir : Status) (p : Prog) (s : Netdevsim) (e : Errno)
    → (verifier_prep mem ddir p s).0 ≡ err e
    → unwarned s (verifier_prep mem ddir p s).1 ≡ s
unfolding verifier_prep create_prog
prepare-err mem ddir p s e h = ground (arith, h)

-- A call that fails leaves the programs, the maps, the attachments and the switches as they were: all
-- that it may change is the counter of names and whether a WARN has fired.
pub call-err :
    (attach : Option Prog → Option Prog → Option Prog) (c : Call) (s : Netdevsim) (e : Errno)
    → (call attach c s).0 ≡ err e
    → unwarned s (call attach c s).1 ≡ s
unfolding call nsim_bpf setup_prog_checks xdp_set_prog bpf_map_alloc translate
call-err attach (command (setup_prog prog)) s e h = ground (arith, h)
call-err attach (command (setup_prog_hw prog)) s e h = setup_prog_hw-err attach prog s e h
call-err attach (command (offload_map_alloc k n m t x f)) s e h =
    elim (Result-cases (map_alloc n m t x f)) [
      | inl (a, q) ↦ ground (arith, h, q)
      | inr (a, q) ↦ ground (arith, h, q)
    ]
call-err attach (command (offload_map_free k)) s e h = ground (arith, h)
call-err attach (command other_command) s e h = refl
call-err attach (tc r) s e h = ap (unwarned s) (tc-err r s e h)
call-err attach (prepare m d p) s e h = prepare-err m d p s e h
call-err attach (translated p) s e h = ground (arith, h)
call-err attach (destroy p) s e h = ground (arith, h)
call-err attach (switched a) s e h = ground (arith, h)
call-err attach (bind_switched a) s e h = ground (arith, h)
call-err attach (mtu_changed n) s e h = ground (arith, h)
