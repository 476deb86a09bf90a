-- ===== src/Bpf/Offload/Marking.antt =====
-- The marks of the programs that run, in netdevsim/bpf.c, on a device that has had at most one interface.
use netdevsim_dkms.Base.{Bool, true, not, ◌&&◌, ◌||◌, Option, List, [], ◌∷◌}
use netdevsim_dkms.Bpf.Offload.{Prog, BoundProg, Netdevsim}
use netdevsim_dkms.Bpf.Offload.Calls.{
  Call, command, tc, prepare, translated, destroy, switched, bind_switched, mtu_changed,
}
use netdevsim_dkms.Bpf.Offload.Ports.{Port}
use netdevsim_dkms.Bpf.Offload.Attaching.{is_running}

-- The programs that run, where `o` is attached, are marked as loaded.
unfoldable pub all_shown : Option Prog → List BoundProg → Bool
all_shown o [] = true
all_shown o (b ∷ bs) = (not (is_running o b.prog) || b.is_loaded) && all_shown o bs

-- A program that is prepared does not run.
abbrev prepares_new : Call → Netdevsim → Bool
prepares_new (prepare state_mem ddir p) s = not (is_running s.bpf_offloaded p)
prepares_new (destroy p) s = true
prepares_new (command bpf) s = true
prepares_new (tc r) s = true
prepares_new (translated p) s = true
prepares_new (switched a) s = true
prepares_new (bind_switched a) s = true
prepares_new (mtu_changed n) s = true

abbrev is_shown : Netdevsim → Bool
is_shown s = all_shown s.bpf_offloaded s.bpf_bound_progs

-- The one interface's program is marked; nothing is said of a device with more places for interfaces.
unfoldable pub is_marked : List Port → List BoundProg → Bool
is_marked [] bs = true
is_marked (p ∷ []) bs = all_shown p.bpf_offloaded bs
is_marked (p ∷ q ∷ ps) bs = true
