-- ===== src/HwStats.antt =====
-- The simulated hardware statistics of netdevsim/hwstats.c. Whether the kernel has a device of an index,
-- whether its statistics are enabled and whether memory suffices are arguments; what is reported to the
-- kernel is an answer.
pub mod Lists
pub mod Invariant
pub mod History
pub mod Ledger
mod Examples
use netdevsim_dkms.Base.{
  ℕ, zero, suc, ◌+◌, ◌-◌, ◌%◌, Bool, true, false, not, Option, none, some, List, [], ◌∷◌, ◌++◌,
  einval, enoent, enomem, enodev, ecanceled, Result, ok, err, Status, success, ◌==◌, if◌then◌else◌,
}

-- `struct rtnl_hw_stats64`, the counters that the code writes, of type u64.
pub record Stats : Type 0 where
  pub rx_packets : ℕ
  pub tx_packets : ℕ
  pub rx_bytes : ℕ
  pub tx_bytes : ℕ

abbrev pub no_stats : Stats
no_stats = record { rx_packets = 0; tx_packets = 0; rx_bytes = 0; tx_bytes = 0 }

-- `struct nsim_dev_hwstats_netdev`; its network device is known by its index.
pub record Hwsdev : Type 0 where
  pub ifindex : ℕ
  pub stats : Stats
  pub enabled : Bool
  pub fail_enable : Bool

-- The list of `struct nsim_dev_hwstats`, and the number of references it holds to network devices.
pub record HwStats : Type 0 where
  pub l3_list : List Hwsdev
  pub refs : ℕ

pub data XstatsType : Type 0 where
  l3 other : XstatsType

abbrev pub add_u64 : ℕ → ℕ → ℕ
add_u64 a b = (a + b) % 18446744073709551616

unfoldable pub bump : Hwsdev → Hwsdev
bump h =
    if h.enabled
    then record h {
      stats = record {
        rx_packets = add_u64 h.stats.rx_packets 1;
        tx_packets = add_u64 h.stats.tx_packets 2;
        rx_bytes = add_u64 h.stats.rx_bytes 100;
        tx_bytes = add_u64 h.stats.tx_bytes 300;
      };
    }
    else h

unfoldable pub traffic_bump : List Hwsdev → List Hwsdev
traffic_bump [] = []
traffic_bump (h ∷ hs) = bump h ∷ traffic_bump hs

unfoldable pub traffic_work : HwStats → HwStats
traffic_work s = record s { l3_list = traffic_bump s.l3_list }

unfoldable pub find_hwsdev : ℕ → List Hwsdev → Option Hwsdev
find_hwsdev i [] = none
find_hwsdev i (h ∷ hs) = if h.ifindex == i then some h else find_hwsdev i hs

-- A write to the device that the search found, and its removal.
unfoldable pub update_hwsdev : ℕ → Hwsdev → List Hwsdev → List Hwsdev
update_hwsdev i v [] = []
update_hwsdev i v (h ∷ hs) = if h.ifindex == i then v ∷ hs else h ∷ update_hwsdev i v hs

unfoldable pub unlink_hwsdev : ℕ → List Hwsdev → List Hwsdev
unlink_hwsdev i [] = []
unlink_hwsdev i (h ∷ hs) = if h.ifindex == i then hs else h ∷ unlink_hwsdev i hs

unfoldable pub hwsdev_enable : Hwsdev → Status × Hwsdev
hwsdev_enable h =
    if h.fail_enable
    then (err ecanceled, record h { fail_enable = false })
    else (success, record h { enabled = true })

unfoldable pub hwsdev_disable : Hwsdev → Hwsdev
hwsdev_disable h = record h { enabled = false; stats = no_stats }

-- What the kernel is told.
pub data Report : Type 0 where
  no_report : Report
  used : Report
  delta : Stats → Report

pub data XstatsEvent : Type 0 where
  xstats_enable xstats_disable report_used report_delta : XstatsEvent

unfoldable pub event_off_xstats : XstatsType → XstatsEvent → ℕ → HwStats → Status × Report × HwStats
event_off_xstats other ev i s = (success, no_report, s)
event_off_xstats l3 ev i s = elim (find_hwsdev i s.l3_list) [
  | none ↦ (success, no_report, s)
  | some h ↦ elim ev [
    | xstats_enable ↦
        let (r, h') = hwsdev_enable h in
        (r, no_report, record s { l3_list = update_hwsdev i h' s.l3_list })
    | xstats_disable ↦
        (success, no_report, record s { l3_list = update_hwsdev i (hwsdev_disable h) s.l3_list })
    | report_used ↦ (success, (if h.enabled then used else no_report), s)
    | report_delta ↦ (
      success,
      delta h.stats,
      record s { l3_list = update_hwsdev i (record h { stats = no_stats }) s.l3_list },
    )
  ]
]

-- `nsim_dev_hwstats_event_unregister`
unfoldable pub event_unregister : ℕ → HwStats → HwStats
event_unregister i s = elim (find_hwsdev i s.l3_list) [
  | none ↦ s
  | some h ↦ record { l3_list = unlink_hwsdev i s.l3_list; refs = s.refs - 1 }
]

-- `nsim_dev_hwstats_enable_ifindex`: `known` says whether the kernel has the device, and `in_use`
-- whether its statistics are enabled there. The answer says whether the kernel is notified.
unfoldable pub enable_ifindex : Bool → Bool → Bool → ℕ → HwStats → Status × Bool × HwStats
enable_ifindex known mem in_use i s = elim (find_hwsdev i s.l3_list) [
  | some h ↦ (success, false, s)
  | none ↦
      if not known
      then (err enodev, false, s)
      else if not mem
      then (err enomem, false, record s { refs = s.refs + 1 - 1 })
      else (let h : Hwsdev = record {
        ifindex = i;
        stats = no_stats;
        enabled = false;
        fail_enable = false;
      } in
          let h' = if in_use then (hwsdev_enable h).1 else h in
          (success, in_use, record { l3_list = s.l3_list ++ h' ∷ []; refs = s.refs + 1 }))
]

-- `nsim_dev_hwstats_disable_ifindex`: if the statistics are enabled in the kernel the last ones are
-- pushed to it.
unfoldable pub disable_ifindex : Bool → ℕ → HwStats → Status × Report × HwStats
disable_ifindex in_use i s = elim (find_hwsdev i s.l3_list) [
  | none ↦ (err enoent, no_report, s)
  | some h ↦ (
    success,
    (if in_use then delta h.stats else no_report),
    record { l3_list = unlink_hwsdev i s.l3_list; refs = s.refs - 1 },
  )
]

unfoldable pub fail_ifindex : ℕ → HwStats → Status × HwStats
fail_ifindex i s = elim (find_hwsdev i s.l3_list) [
  | none ↦ (err enoent, s)
  | some h ↦
      (success, record s { l3_list = update_hwsdev i (record h { fail_enable = true }) s.l3_list })
]

-- `nsim_dev_hwsdev_list_wipe`
unfoldable pub wipe : List Hwsdev → HwStats → HwStats
wipe [] s = record s { l3_list = [] }
wipe (h ∷ hs) s = wipe hs (record { l3_list = hs; refs = s.refs - 1 })
