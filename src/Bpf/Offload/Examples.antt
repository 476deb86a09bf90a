-- ===== src/Bpf/Offload/Examples.antt =====
-- Runs of the BPF offload of netdevsim/bpf.c on concrete inputs.
use netdevsim_dkms.Base.{◌≡◌, refl, true, false, Option, none, some, [], ◌∷◌, ebusy, success, err}
use netdevsim_dkms.Bpf.Offload.{
  Prog, bpf_offload, TcRequest, setup_tc_block_cb, xdp_offload_prog, xdp_set_prog_hw, create_prog,
  verifier_prep, mark_xlated, mark_loaded, translate, loaded_in,
}
use netdevsim_dkms.Bpf.Offload.Calls.{
  setup_prog_hw_checks, xlated_in, setup_prog_hw, nsim_bpf, Call, command, tc, prepare, translated,
  call, keeps_to,
}
use netdevsim_dkms.Bpf.Offload.Ports.{
  attached_to, NsimDev, bpf_init, bpf_dev_init, interface_at, load, store, dev_keeps_to, dev_call,
  Reaches, init, added, calls,
}
use netdevsim_dkms.Bpf.Offload.Reaching.{other_side-keeps, unwarned, call-err}

abbrev attach_new : Option Prog → Option Prog → Option Prog
attach_new old new = new

abbrev xdp_prog : Prog
xdp_prog = record { number = 1; is_xdp = true; id = 17; has_offload = true; is_offloaded = true }

abbrev tc_prog : Prog
tc_prog = record { number = 2; is_xdp = false; id = 18; has_offload = true; is_offloaded = true }

abbrev attaching : Call
attaching = command (setup_prog_hw (some xdp_prog))

-- A device with two interfaces, where an XDP program is bound, translated and attached to the first.
abbrev two_ports : NsimDev
two_ports = record bpf_dev_init { ports = bpf_init 1500 ∷ bpf_init 1500 ∷ [] }

abbrev bound : NsimDev
bound = (dev_call attach_new 0 (prepare true success xdp_prog) two_ports).1

abbrev ready : NsimDev
ready = (dev_call attach_new 0 (translated xdp_prog) bound).1

abbrev running : NsimDev
running = (dev_call attach_new 0 attaching ready).1

reach_two_ports : Reaches attach_new two_ports
reach_two_ports = added (added init 1500) 1500

reach_bound : Reaches attach_new bound
unfolding attached_to
reach_bound = calls reach_two_ports 0 (prepare true success xdp_prog) refl

reach_ready : Reaches attach_new ready
unfolding dev_call store
reach_ready = calls reach_bound 0 (translated xdp_prog) refl

reach_running : Reaches attach_new running
unfolding keeps_to call verifier_prep create_prog translate mark_xlated xlated_in dev_call load
    store
reach_running = calls reach_ready 0 attaching refl

-- A device with one interface, to which the program is attached.
abbrev one_port : NsimDev
one_port = record bpf_dev_init { ports = bpf_init 1500 ∷ [] }

abbrev one_bound : NsimDev
one_bound = (dev_call attach_new 0 (prepare true success xdp_prog) one_port).1

abbrev one_ready : NsimDev
one_ready = (dev_call attach_new 0 (translated xdp_prog) one_bound).1

abbrev one_running : NsimDev
one_running = (dev_call attach_new 0 attaching one_ready).1

running_prog : (interface_at 0 running).bpf_offloaded ≡ some xdp_prog
unfolding call verifier_prep create_prog translate mark_xlated xlated_in nsim_bpf
    setup_prog_hw_checks xdp_set_prog_hw xdp_offload_prog bpf_offload dev_call load store
running_prog = refl

abbrev request : TcRequest
request = record {
  is_clsbpf = true;
  can_offload = true;
  protocol_all = true;
  command_offload = true;
  prog = some tc_prog;
  oldprog = none;
}

request_allowed : dev_keeps_to 0 (tc request) running ≡ true
unfolding keeps_to dev_call store
request_allowed = refl

other_side-keeps_example :
    (interface_at 0 (dev_call attach_new 0 (tc request) running).1).bpf_offloaded ≡ some xdp_prog
other_side-keeps_example =
    other_side-keeps attach_new 0 (tc request) running xdp_prog (λ old new. refl) reach_running
      request_allowed running_prog refl

request_busy : (call attach_new (tc request) (load 0 running)).0 ≡ err ebusy
unfolding call verifier_prep create_prog translate mark_xlated xlated_in nsim_bpf
    setup_prog_hw_checks xdp_set_prog_hw xdp_offload_prog bpf_offload setup_tc_block_cb dev_call
    load store
request_busy = refl

call-err_example :
    unwarned (load 0 running) (call attach_new (tc request) (load 0 running)).1 ≡ load 0 running
call-err_example = call-err attach_new (tc request) (load 0 running) ebusy request_busy

-- The program is attached to the second interface too, and detached from the first: it is not marked as
-- loaded any more, while the second interface has it.
abbrev shared : NsimDev
shared = (dev_call attach_new 1 attaching running).1

abbrev half_detached : NsimDev
half_detached = (dev_call attach_new 0 (command (setup_prog_hw none)) shared).1

unmarked_while_attached :
    ((interface_at 1 half_detached).bpf_offloaded ≡ some xdp_prog)
    × (loaded_in xdp_prog half_detached.bpf_bound_progs ≡ false)
unfolding call verifier_prep create_prog translate mark_xlated mark_loaded xlated_in nsim_bpf
    setup_prog_hw_checks xdp_set_prog_hw xdp_offload_prog bpf_offload loaded_in dev_call load store
unmarked_while_attached = (refl, refl)
