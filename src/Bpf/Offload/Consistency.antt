-- ===== src/Bpf/Offload/Consistency.antt =====
-- What holds of the BPF part of a netdevsim, in netdevsim/bpf.c, after any calls of the kernel.
use netdevsim_dkms.Base.{
  ◌≡◌, refl, sym, ap, subst, ◌∙◌, Bool, true, false, not, Option, none, some, arith, Bool-cases,
  inl, inr, ◌⊎◌,
}
use netdevsim_dkms.Bpf.Offload.{
  Prog, same_prog, is_prog, verify, Netdevsim, id_of, bpf_offload, TcRequest, setup_tc_block_cb,
  xdp_offload_prog, xdp_set_prog, xdp_set_prog_hw, create_prog, verifier_prep, translate,
  destroy_prog, loaded_in,
}
use netdevsim_dkms.Bpf.Offload.Calls.{
  setup_prog_checks, setup_prog_hw_checks, bpf_map_alloc, bpf_map_free, setup_prog, setup_prog_hw,
  offload_map_alloc, offload_map_free, other_command, nsim_bpf, Call, command, tc, prepare,
  translated, destroy, switched, bind_switched, mtu_changed, call, is_tc_prog, keeps_to,
}
use netdevsim_dkms.Bpf.Offload.Attaching.{
  all_backed, or_running, xlated-backed, append-backed, unlink-backed, IsRight, bpf_offload-IsRight,
}

-- While XDP has a program in the device, that program is the one attached; else TC's program is, if any.
unfoldable pub IsHeld : Option Prog → Option Prog → Type 0
IsHeld none o = is_tc_prog o ≡ true
IsHeld (some p) o = (o ≡ some p) × (p.is_xdp ≡ true)

pub record IsConsistent (elsewhere : Prog → Bool) (s : Netdevsim) : Type 0 where
  pub right : IsRight elsewhere s
  pub held : IsHeld s.xdp_hw s.bpf_offloaded

held_by :
    (o : Option Prog) (hw : Option Prog) (q : Option Prog)
    → IsHeld hw o
    → is_tc_prog q ≡ true
    → same_prog o q ≡ true
    → hw ≡ none
unfolding IsHeld
held_by o none q h t e = refl
held_by o (some p) none (at, x) t e = ground (arith, at, e, ap (λ y. same_prog y none) at)
held_by o (some p) (some q) (at, x) t e =
    ground (arith, at, e, x, t, ap (λ y. same_prog y (some q)) at)

same_is_prog : (o q : Option Prog) → same_prog o q ≡ true → is_prog q ≡ is_prog o
same_is_prog none none h = refl
same_is_prog none (some q) h = ground (arith, h)
same_is_prog (some o) none h = ground (arith, h)
same_is_prog (some o) (some q) h = refl

none_held : (hw : Option Prog) (o : Option Prog) → IsHeld hw o → is_prog o ≡ false → hw ≡ none
unfolding IsHeld
none_held none o h e = refl
none_held (some p) o (at, x) e = ground (arith, e, ap is_prog at)

-- A request of TC does not touch a program of XDP, and attaches with the flag the state asks for.
pub tc_served :
    (r : TcRequest) (s : Netdevsim)
    → IsHeld s.xdp_hw s.bpf_offloaded
    → is_tc_prog r.oldprog ≡ true
    → ((setup_tc_block_cb r s).1 ≡ s)
      ⊎ ((s.xdp_hw ≡ none)
          × ((setup_tc_block_cb r s).1 ≡ (bpf_offload r.prog (is_prog s.bpf_offloaded) s).1))
unfolding setup_tc_block_cb
tc_served r s h t = elim (Bool-cases (same_prog s.bpf_offloaded r.oldprog)) [
  | inl e ↦ ground (
    arith,
    e,
    same_is_prog s.bpf_offloaded r.oldprog e,
    held_by s.bpf_offloaded s.xdp_hw r.oldprog h t e,
  )
  | inr e ↦ elim (Bool-cases (is_prog s.bpf_offloaded)) [
    | inl p ↦ ground (arith, e, p)
    | inr p ↦ ground (arith, e, p, none_held s.xdp_hw s.bpf_offloaded h p)
  ]
]

held_active : (hw o : Option Prog) → IsHeld hw o → is_prog hw ≡ true → is_prog o ≡ true
unfolding IsHeld
held_active none o h e = ground (arith, e)
held_active (some p) o (at, x) e = ap is_prog at

not_prog : (o : Option Prog) → is_prog o ≡ false → o ≡ none
not_prog none e = refl
not_prog (some p) e = ground (arith, e)

-- A program of XDP is attached with the flag the state asks for.
pub hw_served :
    (attach : Option Prog → Option Prog → Option Prog) (prog : Option Prog) (s : Netdevsim)
    → ((old new : Option Prog) → attach old new ≡ new)
    → IsHeld s.xdp_hw s.bpf_offloaded
    → keeps_to (command (setup_prog_hw prog)) s ≡ true
    → ((nsim_bpf attach (setup_prog_hw prog) s).1 ≡ s)
      ⊎ ((is_prog s.xdp_hw ≡ is_prog s.bpf_offloaded)
          × ((nsim_bpf attach (setup_prog_hw prog) s).1
              ≡ record (bpf_offload prog (is_prog s.bpf_offloaded) s).1 { xdp_hw = prog }))
unfolding nsim_bpf setup_prog_hw_checks xdp_set_prog_hw xdp_offload_prog bpf_offload keeps_to
hw_served attach none s new h allowed = elim (Bool-cases (is_prog s.xdp_hw)) [
  | inl e ↦ ground (arith, e, held_active s.xdp_hw s.bpf_offloaded h e, new s.xdp_hw none)
  | inr e ↦
      let gone = not_prog s.xdp_hw e in
      let same = ap (λ x. record s { xdp_hw = x }) (new s.xdp_hw none ∙ sym gone) in
      ground (arith, e, same)
]
hw_served attach (some p) s new h allowed = elim (Bool-cases (is_prog s.xdp_hw)) [
  | inl e ↦
      ground (arith, e, allowed, held_active s.xdp_hw s.bpf_offloaded h e, new s.xdp_hw (some p))
  | inr e ↦ ground (arith, e, allowed, new s.xdp_hw (some p))
]

tc-IsConsistent :
    (f : Prog → Bool) (r : TcRequest) (s : Netdevsim)
    → (is_tc_prog r.prog ≡ true) × (is_tc_prog r.oldprog ≡ true)
    → IsConsistent f s
    → IsConsistent f (setup_tc_block_cb r s).1
unfolding IsHeld bpf_offload
tc-IsConsistent f r s (p, t) c = elim (tc_served r s c.held t) [
  | inl e ↦ subst (IsConsistent f) (sym e) c
  | inr (gone, e) ↦ subst (IsConsistent f) (sym e) (record {
    right = bpf_offload-IsRight f r.prog s c.right;
    held = subst (λ x. IsHeld x r.prog) (sym gone) p;
  })
]

hw_held :
    (prog : Option Prog) (s : Netdevsim)
    → keeps_to (command (setup_prog_hw prog)) s ≡ true
    → IsHeld prog prog
unfolding IsHeld keeps_to
hw_held none s allowed = refl
hw_held (some p) s allowed = (refl, ground (arith, allowed))

hw-IsConsistent :
    (f : Prog → Bool) (attach : Option Prog → Option Prog → Option Prog) (prog : Option Prog)
    (s : Netdevsim)
    → ((old new : Option Prog) → attach old new ≡ new)
    → keeps_to (command (setup_prog_hw prog)) s ≡ true
    → IsConsistent f s
    → IsConsistent f (nsim_bpf attach (setup_prog_hw prog) s).1
unfolding bpf_offload
hw-IsConsistent f attach prog s new allowed c = elim (hw_served attach prog s new c.held allowed) [
  | inl e ↦ subst (IsConsistent f) (sym e) c
  | inr (flag, e) ↦
      let r = bpf_offload-IsRight f prog s c.right in
      subst (IsConsistent f) (sym e) (record {
        right = record { quiet = r.quiet; number = r.number; loaded = r.loaded };
        held = hw_held prog s allowed;
      })
]

-- The states that differ in nothing that the invariant reads.
same_parts :
    (f : Prog → Bool) (s t : Netdevsim)
    → (t.warned ≡ s.warned)
      × (t.bpf_offloaded ≡ s.bpf_offloaded)
      × (t.bpf_offloaded_id ≡ s.bpf_offloaded_id)
      × (t.xdp_hw ≡ s.xdp_hw)
    → all_backed (or_running s.bpf_offloaded f) t.bpf_bound_progs ≡ true
    → IsConsistent f s
    → IsConsistent f t
same_parts f s t (w, o, i, hw) all c = record {
  right = record {
    quiet = w ∙ c.right.quiet;
    number = i ∙ c.right.number ∙ sym (ap id_of o);
    loaded = ap (λ x. all_backed (or_running x f) t.bpf_bound_progs) o ∙ all;
  };
  held = subst (λ x. IsHeld x t.bpf_offloaded) (sym hw) (subst (IsHeld s.xdp_hw) (sym o) c.held);
}

-- The state of a program that is destroyed is not marked as loaded.
abbrev pub destroys_idle : Call → Netdevsim → Bool
destroys_idle (destroy p) s = not (loaded_in p s.bpf_bound_progs)
destroys_idle (command bpf) s = true
destroys_idle (tc r) s = true
destroys_idle (prepare state_mem ddir p) s = true
destroys_idle (translated p) s = true
destroys_idle (switched a) s = true
destroys_idle (bind_switched a) s = true
destroys_idle (mtu_changed n) s = true

pub call-IsConsistent :
    (f : Prog → Bool) (attach : Option Prog → Option Prog → Option Prog) (c : Call) (s : Netdevsim)
    → ((old new : Option Prog) → attach old new ≡ new)
    → keeps_to c s ≡ true
    → destroys_idle c s ≡ true
    → IsConsistent f s
    → IsConsistent f (call attach c s).1
unfolding call keeps_to nsim_bpf setup_prog_checks xdp_set_prog bpf_map_alloc bpf_map_free
    verifier_prep create_prog translate destroy_prog
call-IsConsistent f attach (command (setup_prog prog)) s new allowed idle c =
    same_parts f s (nsim_bpf attach (setup_prog prog) s).1 (ground arith)
      (ground (arith, c.right.loaded)) c
call-IsConsistent f attach (command (setup_prog_hw prog)) s new allowed idle c =
    hw-IsConsistent f attach prog s new allowed c
call-IsConsistent f attach (command (offload_map_alloc key nmap_mem mem t max_entries map_flags)) s
      new allowed idle c =
    same_parts f s
      (nsim_bpf attach (offload_map_alloc key nmap_mem mem t max_entries map_flags) s).1
      (ground arith) (ground (arith, c.right.loaded)) c
call-IsConsistent f attach (command (offload_map_free key)) s new allowed idle c =
    same_parts f s (call attach (command (offload_map_free key)) s).1 (refl, refl, refl, refl)
      c.right.loaded c
call-IsConsistent f attach (command other_command) s new allowed idle c = c
call-IsConsistent f attach (tc r) s new allowed idle c =
    tc-IsConsistent f r s (ground (arith, allowed), ground (arith, allowed)) c
call-IsConsistent f attach (prepare state_mem ddir p) s new allowed idle c =
    let bound =
      append-backed (or_running s.bpf_offloaded f) p verify s.bpf_bound_progs c.right.loaded in
    same_parts f s (call attach (prepare state_mem ddir p) s).1 (ground arith)
      (ground (arith, bound, c.right.loaded)) c
call-IsConsistent f attach (translated p) s new allowed idle c =
    same_parts f s (call attach (translated p) s).1 (refl, refl, refl, refl)
      (xlated-backed (or_running s.bpf_offloaded f) p s.bpf_bound_progs ∙ c.right.loaded) c
call-IsConsistent f attach (destroy p) s new allowed idle c =
    same_parts f s (call attach (destroy p) s).1 (ground (arith, idle), refl, refl, refl)
      (unlink-backed (or_running s.bpf_offloaded f) p s.bpf_bound_progs c.right.loaded) c
call-IsConsistent f attach (switched a) s new allowed idle c =
    same_parts f s (call attach (switched a) s).1 (refl, refl, refl, refl) c.right.loaded c
call-IsConsistent f attach (mtu_changed n) s new allowed idle c =
    same_parts f s (call attach (mtu_changed n) s).1 (refl, refl, refl, refl) c.right.loaded c
call-IsConsistent f attach (bind_switched a) s new allowed idle c =
    same_parts f s (call attach (bind_switched a) s).1 (refl, refl, refl, refl) c.right.loaded c
