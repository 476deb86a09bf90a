-- ===== src/HwStats/History.antt =====
-- Histories of traffic, notifications and writes to the debugfs files of netdevsim/hwstats.c.
use netdevsim_dkms.Base.{ℕ, ◌-◌, ◌≡◌, refl, Bool, List, [], ◌∷◌, arith, length}
use netdevsim_dkms.HwStats.{
  Hwsdev, HwStats, XstatsType, XstatsEvent, traffic_work, event_off_xstats, event_unregister,
  enable_ifindex, disable_ifindex, fail_ifindex, wipe,
}
use netdevsim_dkms.HwStats.Lists.{are_distinct, are_quiet}
use netdevsim_dkms.HwStats.Invariant.{
  IsWellFormed, traffic_work-IsWellFormed, event_off_xstats-IsWellFormed,
  event_unregister-IsWellFormed, enable_ifindex-IsWellFormed, disable_ifindex-IsWellFormed,
  fail_ifindex-IsWellFormed,
}

pub data Step : Type 0 where
  traffic : Step
  xstats : XstatsType → XstatsEvent → ℕ → Step
  unregister : ℕ → Step
  enable : Bool → Bool → Bool → ℕ → Step
  disable : Bool → ℕ → Step
  fail_next : ℕ → Step

-- `nsim_dev_hwstats_event` and `nsim_dev_hwstats_do_write` choose the operation.
unfoldable pub step : Step → HwStats → HwStats
step traffic s = traffic_work s
step (xstats t ev i) s = (event_off_xstats t ev i s).2
step (unregister i) s = event_unregister i s
step (enable known mem in_use i) s = (enable_ifindex known mem in_use i s).2
step (disable in_use i) s = (disable_ifindex in_use i s).2
step (fail_next i) s = (fail_ifindex i s).1

unfoldable pub run : List Step → HwStats → HwStats
run [] s = s
run (x ∷ xs) s = run xs (step x s)

abbrev pub init : HwStats
init = record { l3_list = []; refs = 0 }

step-IsWellFormed : (x : Step) (s : HwStats) → IsWellFormed s → IsWellFormed (step x s)
unfolding step
step-IsWellFormed traffic s v = traffic_work-IsWellFormed s v
step-IsWellFormed (xstats t ev i) s v = event_off_xstats-IsWellFormed t ev i s v
step-IsWellFormed (unregister i) s v = event_unregister-IsWellFormed i s v
step-IsWellFormed (enable known mem in_use i) s v =
    enable_ifindex-IsWellFormed known mem in_use i s v
step-IsWellFormed (disable in_use i) s v = disable_ifindex-IsWellFormed in_use i s v
step-IsWellFormed (fail_next i) s v = fail_ifindex-IsWellFormed i s v

run-IsWellFormed : (xs : List Step) (s : HwStats) → IsWellFormed s → IsWellFormed (run xs s)
unfolding run
run-IsWellFormed [] s v = v
run-IsWellFormed (x ∷ xs) s v = run-IsWellFormed xs (step x s) (step-IsWellFormed x s v)

-- After any history of traffic, notifications and writes to the three files, each device is in the list
-- at most once, a device whose statistics are not enabled has no traffic, and one reference is held for
-- each device of the list.
pub run-init-IsWellFormed : (xs : List Step) → IsWellFormed (run xs init)
unfolding are_distinct are_quiet
run-init-IsWellFormed xs =
    run-IsWellFormed xs init (record { distinct = refl; quiet = refl; counted = refl })

wipe-refs :
    (hs : List Hwsdev) (s : HwStats)
    → s.refs ≡ length hs
    → wipe hs s ≡ record { l3_list = []; refs = 0 }
unfolding wipe
wipe-refs [] s e = ground (arith, e)
wipe-refs (h ∷ hs) s e =
    wipe-refs hs (record { l3_list = hs; refs = s.refs - 1 }) (omega (arith, e))

-- After any history the end of the module's statistics empties the list and gives back every reference
-- to a network device.
pub wipe-run : (xs : List Step) → wipe (run xs init).l3_list (run xs init) ≡ init
wipe-run xs = wipe-refs _ _ (run-init-IsWellFormed xs).counted
