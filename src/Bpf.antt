-- ===== src/Bpf.antt =====
-- The BPF offload of netdevsim/bpf.c.
pub mod Maps
pub mod Offload
