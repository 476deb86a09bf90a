-- ===== src/Lib.antt =====
-- netdevsim-dkms builds the kernel's network device simulator as a module of its own, with a bus of
-- fake PCI devices, DPLL devices and pins, PTP hardware clocks and offloads that only keep books. This
-- library models parts of its C code and proves what keeps those parts right.
--
-- The parts of the program and where they are modelled:
--
-- - Macsec: the MACsec offload of netdevsim/macsec.c. `Macsec` is `struct nsim_macsec`; `add_secy`,
--   `del_rxsc`, `upd_txsa` and so on are the handlers nsim_macsec_add_secy, ..., and a `Call` is an
--   entry of nsim_macsec_ops.
-- - Ipsec: the table of security associations of netdevsim/ipsec.c; `add_sa`, `del_sa`, `offload_ok`
--   and `ipsec_tx` are nsim_ipsec_add_sa, ....
-- - Dpll.Refs, Dpll.Device, Dpll.Pin: dpll/dpll_core.c. `ref_add` and `ref_del` are
--   dpll_xa_ref_pin_add/del and dpll_xa_ref_dpll_add/del; `device_get`, `pin_register` and so on are
--   dpll_device_get, dpll_pin_register, .... A pin's registration with a device writes a reference
--   into the tables of both.
-- - Dpll.Setting: the frequency and the phase adjustment of a pin, dpll_pin_freq_set and
--   dpll_pin_phase_adj_set of dpll/dpll_netlink.c; a `Driver` is what the drivers of the devices offer.
-- - Dpll.Searching: dpll_pin_find, dpll_device_find and the functions that read the attributes for them,
--   of dpll/dpll_netlink.c.
-- - Ptp.Queue: the queues of external timestamps: queue_cnt of ptp/ptp_private.h, ptp_clock_event and
--   the functions it calls of ptp/ptp_clock.c, open, release, read, poll and the masks of
--   ptp/ptp_chardev.c, the file fifo of ptp/ptp_sysfs.c.
-- - Ptp.Pins: the functions of a clock's pins, ptp_set_pinfunc and ptp_disable_pinfunc of
--   ptp/ptp_chardev.c and ptp_find_pin of ptp/ptp_clock.c.
-- - Ptp.Vclocks: the files n_vclocks and max_vclocks of ptp/ptp_sysfs.c.
-- - Ptp.Mock: the simulated hardware clock of ptp/ptp_mock.c, its time and its pulses.
-- - Bus.Devices: the bus of netdevsim/bus.c. `new_device` and `del_device` are new_device_store and
--   del_device_store, which go through `bus_dev_new` and `bus_dev_del` to the fake PCI devices.
-- - Bus.Pci: the fake PCI devices of netdevsim/fakepci.c.
-- - Bus.Peers: the links between interfaces, of netdevsim/bus.c and nsim_destroy of
--   netdevsim/netdev.c.
-- - Fib: netdevsim/fib.c. Fib.Resources has the occupancy counters, Fib.Nexthops the nexthops
--   (`event_nb` is nsim_nexthop_event_nb), Fib.Siblings the nexthops of one IPv6 route, Fib.Routes the
--   routes that are held, Fib.Work the notifications (`schedule_work`) and the work that follows
--   (`event_work`, `flush_work`).
-- - Wpc: the DPLL of the simulated WPC card, netdevsim/dpll.c. `Ndpll` is the lock's and the receiver's
--   part of `struct nsim_dpll`; `enter_holdover`, `lock_status_store`, `holdover_timer_cb` are
--   nsim_dpll_enter_holdover, ...; Wpc.Ubx has the messages of the UBX protocol, Wpc.Nmea the search
--   for GGA sentences, and `write_raw` of Wpc.Receiver is nsim_gnss_write_raw; Wpc.Setup has
--   nsim_dpll_init and nsim_dpll_exit with what they hold, the pins of any number of ports, the timers and
--   the work included.
-- - HwStats: the hardware statistics of netdevsim/hwstats.c; `event_off_xstats`, `enable_ifindex` and so
--   on are nsim_dev_hwstats_event_off_xstats, ....
-- - UdpTunnels: the UDP tunnel ports of netdevsim/udp_tunnels.c; `set_port` is
--   nsim_udp_tunnel_set_port, and so on.
-- - Bpf: netdevsim/bpf.c. Bpf.Maps has the offloaded maps (`update_elem` is nsim_map_update_elem, and so
--   on), Bpf.Offload the programs and the program attached: `setup_tc_block_cb`, `xdp_offload_prog`,
--   `nsim_bpf` and so on are the functions of these names. A `Call` is what the kernel can ask for.
--   Bpf.Offload.Ports has a device with its interfaces, which share its lists of programs and maps: a call
--   for one interface reads and writes what that interface has and what the device has.
-- - Dev: netdevsim/dev.c. Dev.Ports has the ports of a device, its eswitch and its VFs
--   (`eswitch_mode_set` is nsim_devlink_eswitch_mode_set, `drv_port_add` nsim_drv_port_add, and so on);
--   Dev.Life what a device holds from `drv_probe` over reloads to `drv_remove`, where a label of
--   nsim_drv_probe is the function of its name. Dev.Stages has the set-up in stages that they share.
-- - Base: the helpers they share: tests, arrays as lists, searches, error codes, integers.
--
-- The state of a part is a record, and an operation is a function from the arguments and the state to
-- the answer and the new state. What a call meets outside this code, as the answer of an allocator,
-- the clock's reading or the values that sscanf finds, is an argument of the operation. Where the code
-- reads freed memory the operation gives `none`. Every loop goes down a list or a counter, so that no
-- model needs fuel. Arrays have the sizes of the code: 3 SecYs with 1 receive channel, 33 associations,
-- 128 timestamps. Machine integers are numbers below their bound; where a bound can be passed the wrap
-- is written out.
--
-- Not modelled: locks, RCU and memory barriers: an operation is one step. The code mostly holds the lock
-- of what an operation changes, but not everywhere: nsim_dpll_lock_status_store and nsim_gnss_write_raw
-- have no lock in common, and what they do when they interleave is not modelled. Nor are log messages,
-- debugfs but for what it switches, and notifications beyond the fact that they are sent. The counter of the
-- bus is an integer that is below 0 after an underflow; that a refcount_t saturates is left out. test_bit
-- of ptp_clock_event with a channel of 2048 or more reads past the mask of a queue; the mask is a function
-- of any channel, which does not say what is there. An xarray is the list of its entries by rising
-- index. The rest of the code is left for later: the resources, traps and rates of netdevsim/dev.c;
-- health.c, psample.c, ethtool.c and most of netdev.c; the other set operations and the messages of
-- dpll/dpll_netlink.c, and dpll_nl.c; registration and the ioctls of ptp/ptp_clock.c and
-- ptp/ptp_chardev.c; ptp/ptp_vclock.c; the other files of ptp/ptp_sysfs.c; and the user space shim.
pub mod Base
pub mod Macsec
pub mod Ipsec
pub mod Dpll
pub mod Ptp
pub mod Bus
pub mod Fib
pub mod Wpc
pub mod HwStats
pub mod UdpTunnels
pub mod Dev
pub mod Bpf
