-- ===== src/Bpf/Offload/Sharing.antt =====
-- What holds of a device with its interfaces, in netdevsim/bpf.c, in every state that the kernel's calls
-- reach.
use netdevsim_dkms.Base.{
  ℕ, zero, suc, ◌≡◌, ◌<◌, refl, sym, ap, ◌∙◌, fun_ext, Bool, true, false, ◌||◌, Option, none, List,
  [], ◌∷◌, ◌++◌, arith, success, length, get_or, set, Option-cases, inl, inr, All, All-get_or,
  All-set,
}
use netdevsim_dkms.Bpf.Offload.{Prog, is_same, BoundProg, Netdevsim, id_of, disable_tc}
use netdevsim_dkms.Bpf.Offload.Calls.{
  Call, command, tc, prepare, translated, destroy, switched, bind_switched, mtu_changed, call,
  keeps_to, bpf_uninit,
}
use netdevsim_dkms.Bpf.Offload.Ports.{
  Port, NsimDev, bpf_init, bpf_dev_init, no_port, interface_at, load, port_of, store, attached_to,
  dev_keeps_to, dev_call, Reaches, init, added, calls, gone,
}
use netdevsim_dkms.Bpf.Offload.Attaching.{
  is_running, all_backed, or_running, loaded_in-unused, is_same_trans,
}
use netdevsim_dkms.Bpf.Offload.Consistency.{IsHeld, IsConsistent, destroys_idle, call-IsConsistent}

-- A program is attached to an interface of a list, and offloaded.
unfoldable pub runs_on : List Port → Prog → Bool
runs_on [] q = false
runs_on (p ∷ ps) q = is_running p.bpf_offloaded q || runs_on ps q

-- The number that an interface shows is that of its program, and its program is that of XDP's hardware
-- attachment where there is one, and no XDP program otherwise.
pub record IsPortRight (p : Port) : Type 0 where
  pub number : p.bpf_offloaded_id ≡ id_of p.bpf_offloaded
  pub held : IsHeld p.xdp_hw p.bpf_offloaded

pub record IsSound (d : NsimDev) : Type 0 where
  pub quiet : d.warned ≡ false
  pub ports_right : All IsPortRight d.ports
  pub loaded : all_backed (runs_on d.ports) d.bpf_bound_progs ≡ true

runs_on-get_or :
    (ps : List Port) (i : ℕ) (q : Prog)
    → runs_on ps q ≡ or_running (get_or ps i no_port).bpf_offloaded (runs_on (set ps i no_port)) q
unfolding runs_on
runs_on-get_or [] i q = refl
runs_on-get_or (p ∷ ps) zero q = ground arith
runs_on-get_or (p ∷ ps) (suc i) q = ground (arith, runs_on-get_or ps i q)

runs_on-set :
    (ps : List Port) (i : ℕ) (p : Port) (q : Prog)
    → i < length ps
    → runs_on (set ps i p) q ≡ or_running p.bpf_offloaded (runs_on (set ps i no_port)) q
unfolding runs_on
runs_on-set [] i p q h = absurd (omega (arith, h))
runs_on-set (x ∷ ps) zero p q h = ground arith
runs_on-set (x ∷ ps) (suc i) p q h = ground (arith, runs_on-set ps i p q (omega (arith, h)))

runs_on-append :
    (ps : List Port) (mtu : ℕ) (q : Prog) → runs_on (ps ++ bpf_init mtu ∷ []) q ≡ runs_on ps q
unfolding runs_on
runs_on-append [] mtu q = refl
runs_on-append (p ∷ ps) mtu q = ground (arith, runs_on-append ps mtu q)

backed_by :
    (f g : Prog → Bool) (bs : List BoundProg)
    → ((q : Prog) → f q ≡ g q)
    → all_backed f bs ≡ true
    → all_backed g bs ≡ true
backed_by f g bs same h = ap (λ (t : Prog → Bool). all_backed t bs) (sym (fun_ext same)) ∙ h

All-append :
    (ps : List Port) (p : Port)
    → All IsPortRight ps
    → IsPortRight p
    → All IsPortRight (ps ++ p ∷ [])
All-append [] p a h = (h, tt)
All-append (x ∷ ps) p (here, a) h = (here, All-append ps p a h)

no_port-IsPortRight : (mtu : ℕ) → IsPortRight (bpf_init mtu)
unfolding IsHeld
no_port-IsPortRight mtu = record { number = refl; held = refl }

-- An interface of a sound device is consistent with what runs on the others, and the other way round.
abbrev pub elsewhere : ℕ → NsimDev → Prog → Bool
elsewhere i d = runs_on (set d.ports i no_port)

pub load-IsConsistent : (i : ℕ) (d : NsimDev) → IsSound d → IsConsistent (elsewhere i d) (load i d)
unfolding load
load-IsConsistent i d s =
    let p = All-get_or IsPortRight d.ports i no_port s.ports_right (no_port-IsPortRight 0) in
    record {
      right = record {
        quiet = s.quiet;
        number = p.number;
        loaded =
            backed_by (runs_on d.ports)
              (or_running (interface_at i d).bpf_offloaded (elsewhere i d)) d.bpf_bound_progs
              (runs_on-get_or d.ports i) s.loaded;
      };
      held = p.held;
    }

store-IsSound :
    (i : ℕ) (s : Netdevsim) (d : NsimDev)
    → i < length d.ports
    → IsSound d
    → IsConsistent (elsewhere i d) s
    → IsSound (store i s d)
unfolding store
store-IsSound i s d h sound c = record {
  quiet = c.right.quiet;
  ports_right =
      All-set IsPortRight d.ports i (port_of s) sound.ports_right
        (record { number = c.right.number; held = c.held });
  loaded =
      backed_by (or_running s.bpf_offloaded (elsewhere i d)) (runs_on (set d.ports i (port_of s)))
        s.bpf_bound_progs (λ q. sym (runs_on-set d.ports i (port_of s) q h)) c.right.loaded;
}

attached_to-runs_on :
    (ps : List Port) (p q : Prog)
    → attached_to ps p ≡ false
    → is_same p q ≡ true
    → runs_on ps q ≡ false
unfolding attached_to runs_on
attached_to-runs_on [] p q h e = refl
attached_to-runs_on (x ∷ ps) p q h e = elim (Option-cases x.bpf_offloaded) [
  | inl n ↦ ground (arith, h, n, attached_to-runs_on ps p q, e)
  | inr (r, n) ↦ ground (arith, h, n, is_same_trans r p q, attached_to-runs_on ps p q, e)
]

pub dev_keeps_to-destroys_idle :
    (i : ℕ) (c : Call) (d : NsimDev)
    → IsSound d
    → dev_keeps_to i c d ≡ true
    → (i < length d.ports) × (keeps_to c (load i d) ≡ true) × (destroys_idle c (load i d) ≡ true)
unfolding load keeps_to
dev_keeps_to-destroys_idle i (destroy p) d s k =
    let unused =
      loaded_in-unused (runs_on d.ports) p d.bpf_bound_progs
        (λ q. attached_to-runs_on d.ports p q (ground (arith, k))) s.loaded in
    (ground (arith, k), refl, ground (arith, unused))
dev_keeps_to-destroys_idle i (command bpf) d s k = (ground (arith, k), ground (arith, k), refl)
dev_keeps_to-destroys_idle i (tc r) d s k = (ground (arith, k), ground (arith, k), refl)
dev_keeps_to-destroys_idle i (prepare m a p) d s k = (ground (arith, k), refl, refl)
dev_keeps_to-destroys_idle i (translated p) d s k = (ground (arith, k), refl, refl)
dev_keeps_to-destroys_idle i (switched a) d s k = (ground (arith, k), refl, refl)
dev_keeps_to-destroys_idle i (bind_switched a) d s k = (ground (arith, k), refl, refl)
dev_keeps_to-destroys_idle i (mtu_changed n) d s k = (ground (arith, k), refl, refl)

gone-IsSound :
    (i : ℕ) (d : NsimDev)
    → IsSound d
    → disable_tc (load i d) ≡ success
    → (interface_at i d).xdp ≡ none
    → (interface_at i d).xdp_hw ≡ none
    → IsSound (record d { ports = set d.ports i no_port; warned = (bpf_uninit (load i d)).warned })
unfolding load disable_tc bpf_uninit
gone-IsSound i d s off no_xdp no_hw =
    let detached : (interface_at i d).bpf_offloaded ≡ none =
      elim (Option-cases (interface_at i d).bpf_offloaded) [
        | inl n ↦ n
        | inr (p, n) ↦ ground (arith, off, no_hw, n)
      ] in
    record {
      quiet = ground (arith, s.quiet, detached, no_xdp, no_hw);
      ports_right = All-set IsPortRight d.ports i no_port s.ports_right (no_port-IsPortRight 0);
      loaded =
          backed_by (runs_on d.ports) (runs_on (set d.ports i no_port)) d.bpf_bound_progs
            (λ q.
              runs_on-get_or d.ports i q
              ∙ ap (λ (o : Option Prog). or_running o (elsewhere i d) q) detached)
            s.loaded;
    }

init-IsSound : IsSound bpf_dev_init
unfolding all_backed
init-IsSound = record { quiet = refl; ports_right = tt; loaded = refl }

-- In every state that the kernel's calls reach, for a device with any number of interfaces that come and
-- go and share its programs: no WARN of the BPF code has fired; a program marked as loaded is attached to
-- an interface, and offloaded; each interface shows the number of its program; and its program is that of
-- XDP's hardware attachment where there is one, and no XDP program otherwise. The kernel keeps to this: TC
-- hands over TC programs and XDP hands over translated XDP programs, a program is destroyed when no
-- interface has it attached, and an interface goes when nothing is attached there.
pub Reaches-IsSound :
    (attach : Option Prog → Option Prog → Option Prog) (d : NsimDev)
    → ((old new : Option Prog) → attach old new ≡ new)
    → Reaches attach d
    → IsSound d
unfolding dev_call
Reaches-IsSound attach d new init = init-IsSound
Reaches-IsSound attach d new (added {d = d0} r mtu) =
    let s = Reaches-IsSound attach d0 new r in
    record {
      quiet = s.quiet;
      ports_right = All-append d0.ports (bpf_init mtu) s.ports_right (no_port-IsPortRight mtu);
      loaded =
          backed_by (runs_on d0.ports) (runs_on (d0.ports ++ bpf_init mtu ∷ [])) d0.bpf_bound_progs
            (λ q. sym (runs_on-append d0.ports mtu q)) s.loaded;
    }
Reaches-IsSound attach d new (calls {d = d0} r i c allowed) =
    let s = Reaches-IsSound attach d0 new r in
    let (lt, keeps, idle) = dev_keeps_to-destroys_idle i c d0 s allowed in
    store-IsSound i (call attach c (load i d0)).1 d0 lt s (
      call-IsConsistent (elsewhere i d0) attach c (load i d0) new keeps idle
        (load-IsConsistent i d0 s))
Reaches-IsSound attach d new (gone {d = d0} r i off no_xdp no_hw) =
    gone-IsSound i d0 (Reaches-IsSound attach d0 new r) off no_xdp no_hw
