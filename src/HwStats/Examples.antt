-- ===== src/HwStats/Examples.antt =====
-- Concrete runs of netdevsim/hwstats.c.
use netdevsim_dkms.Base.{◌+◌, ◌≡◌, refl, true, false, none, some, List, [], ◌∷◌, arith}
use netdevsim_dkms.HwStats.{Hwsdev, HwStats, l3, xstats_enable, find_hwsdev, wipe}
use netdevsim_dkms.HwStats.Invariant.{IsWellFormed}
use netdevsim_dkms.HwStats.History.{
  Step, traffic, xstats, enable, disable, fail_next, run, init, run-init-IsWellFormed, wipe-run,
}
use netdevsim_dkms.HwStats.Ledger.{Round, ask, collect, collect-sum}

abbrev history : List Step
history =
    enable true true false 4
    ∷ fail_next 4
    ∷ xstats l3 xstats_enable 4
    ∷ xstats l3 xstats_enable 4
    ∷ traffic
    ∷ enable true true true 5
    ∷ traffic
    ∷ disable true 4
    ∷ []

run-init-IsWellFormed_example : IsWellFormed (run history init)
run-init-IsWellFormed_example = run-init-IsWellFormed history

wipe-run_example : wipe (run history init).l3_list (run history init) ≡ init
wipe-run_example = wipe-run history

abbrev device : Hwsdev
device = record {
  ifindex = 4;
  stats = record { rx_packets = 7; tx_packets = 14; rx_bytes = 700; tx_bytes = 2100 };
  enabled = true;
  fail_enable = false;
}

abbrev one_device : HwStats
one_device = record { l3_list = device ∷ []; refs = 1 }

found : find_hwsdev 4 one_device.l3_list ≡ some device
unfolding find_hwsdev
found = refl

not_found : find_hwsdev 9 one_device.l3_list ≡ none
unfolding find_hwsdev
not_found = refl

abbrev rounds : List Round
rounds = Round.traffic ∷ ask ∷ Round.traffic ∷ Round.traffic ∷ ask ∷ Round.traffic ∷ []

collect-sum_example :
    let (p, b, s') = collect 4 rounds one_device in
    (h' : Hwsdev) × (find_hwsdev 4 s'.l3_list ≡ some h')
    × (p + h'.stats.rx_packets ≡ 11)
    × (b + h'.stats.tx_bytes ≡ 3300)
collect-sum_example = collect-sum 4 rounds device one_device found refl (omega arith) (omega arith)
