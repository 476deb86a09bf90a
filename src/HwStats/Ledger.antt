-- ===== src/HwStats/Ledger.antt =====
-- What becomes of the traffic that netdevsim/hwstats.c counts.
use netdevsim_dkms.Base.{
  ℕ, suc, ◌+◌, ◌*◌, ◌%◌, ◌≡◌, ◌<◌, refl, Bool, true, false, none, some, List, [], ◌∷◌, ◌++◌, arith,
  if◌then◌else◌, ecanceled, err, success,
}
use netdevsim_dkms.HwStats.{
  no_stats, Hwsdev, HwStats, l3, Report, no_report, used, delta, xstats_enable, report_delta, bump,
  traffic_bump, traffic_work, find_hwsdev, update_hwsdev, unlink_hwsdev, hwsdev_enable,
  event_off_xstats, enable_ifindex, disable_ifindex, fail_ifindex,
}
use netdevsim_dkms.HwStats.Lists.{find_hwsdev-some}

pub find_hwsdev-update_hwsdev :
    (i : ℕ) (h v : Hwsdev) (hs : List Hwsdev)
    → find_hwsdev i hs ≡ some h
    → v.ifindex ≡ i
    → find_hwsdev i (update_hwsdev i v hs) ≡ some v
unfolding find_hwsdev update_hwsdev
find_hwsdev-update_hwsdev i h v [] e same = ground (arith, e)
find_hwsdev-update_hwsdev i h v (x ∷ hs) e same =
    ground (arith, e, same, find_hwsdev-update_hwsdev i h v hs)

find_hwsdev-traffic_bump :
    (i : ℕ) (h : Hwsdev) (hs : List Hwsdev)
    → find_hwsdev i hs ≡ some h
    → find_hwsdev i (traffic_bump hs) ≡ some (bump h)
unfolding find_hwsdev traffic_bump bump
find_hwsdev-traffic_bump i h [] e = ground (arith, e)
find_hwsdev-traffic_bump i h (x ∷ hs) e = ground (arith, e, find_hwsdev-traffic_bump i h hs)

-- Traffic, and requests of the kernel for what has come since the last one.
pub data Round : Type 0 where
  traffic ask : Round

abbrev pub rounds_of_traffic : List Round → ℕ
rounds_of_traffic [] = 0
rounds_of_traffic (traffic ∷ rs) = suc (rounds_of_traffic rs)
rounds_of_traffic (ask ∷ rs) = rounds_of_traffic rs

-- The packets received and the bytes sent in a report.
abbrev pub packets : Report → ℕ
packets (delta t) = t.rx_packets
packets no_report = 0
packets used = 0

abbrev pub bytes : Report → ℕ
bytes (delta t) = t.tx_bytes
bytes no_report = 0
bytes used = 0

-- What the kernel is told in all, and the state in the end.
unfoldable pub collect : ℕ → List Round → HwStats → ℕ × ℕ × HwStats
collect i [] s = (0, 0, s)
collect i (traffic ∷ rs) s = collect i rs (traffic_work s)
collect i (ask ∷ rs) s =
    let (r, told, s') = event_off_xstats l3 report_delta i s in
    let (p, b, s2) = collect i rs s' in (packets told + p, bytes told + b, s2)

bump-stats :
    (h : Hwsdev)
    → h.enabled ≡ true
    → h.stats.rx_packets + 1 < 18446744073709551616
    → h.stats.tx_bytes + 300 < 18446744073709551616
    → ((bump h).enabled ≡ true)
      × ((bump h).stats.rx_packets ≡ h.stats.rx_packets + 1)
      × ((bump h).stats.tx_bytes ≡ h.stats.tx_bytes + 300)
unfolding bump
bump-stats h on few little =
    let p : (h.stats.rx_packets + 1) % 18446744073709551616 ≡ h.stats.rx_packets + 1 =
      omega (arith, few) in
    let b : (h.stats.tx_bytes + 300) % 18446744073709551616 ≡ h.stats.tx_bytes + 300 =
      omega (arith, little) in
    ground (arith, on, p, b)

-- As long as no counter wraps round, of every packet received and of every byte sent by a device whose
-- statistics are enabled, either the kernel has been told or it is still held, and none is told twice.
pub collect-sum :
    (i : ℕ) (rs : List Round) (h : Hwsdev) (s : HwStats)
    → find_hwsdev i s.l3_list ≡ some h
    → h.enabled ≡ true
    → h.stats.rx_packets + rounds_of_traffic rs < 18446744073709551616
    → h.stats.tx_bytes + 300 * rounds_of_traffic rs < 18446744073709551616
    → let (p, b, s') = collect i rs s in
      (h' : Hwsdev) × (find_hwsdev i s'.l3_list ≡ some h')
      × (p + h'.stats.rx_packets ≡ h.stats.rx_packets + rounds_of_traffic rs)
      × (b + h'.stats.tx_bytes ≡ h.stats.tx_bytes + 300 * rounds_of_traffic rs)
unfolding collect traffic_work event_off_xstats
collect-sum i [] h s e on few little = (h, e, omega arith, omega arith)
collect-sum i (traffic ∷ rs) h s e on few little =
    let (on', p, b) = bump-stats h on (omega (arith, few)) (omega (arith, little)) in
    let found = find_hwsdev-traffic_bump i h s.l3_list e in
    let (h', e', packets', bytes') =
      collect-sum i rs (bump h) (traffic_work s) found on' (omega (arith, few, p))
        (omega (arith, little, b)) in
    (h', e', omega (arith, packets', p), omega (arith, bytes', b))
collect-sum i (ask ∷ rs) h s e on few little =
    let v : Hwsdev = record h { stats = no_stats } in
    let s1 : HwStats = record s { l3_list = update_hwsdev i v s.l3_list } in
    let same = (find_hwsdev-some i h s.l3_list e).0 in
    let found = find_hwsdev-update_hwsdev i h v s.l3_list e same in
    let (h', e', packets', bytes') =
      collect-sum i rs v s1 found on (omega (arith, few)) (omega (arith, little)) in
    (h', ground (arith, e, e'), ground (arith, e, packets'), ground (arith, e, bytes'))

-- After a write to fail_next_enable for a device of the list, the next attempt to enable its statistics
-- fails with ECANCELED and changes nothing else, and the one after that succeeds.
pub fail_ifindex-enable :
    (i : ℕ) (h : Hwsdev) (s : HwStats)
    → find_hwsdev i s.l3_list ≡ some h
    → let s1 = (fail_ifindex i s).1 in
      let (r2, told2, s2) = event_off_xstats l3 xstats_enable i s1 in
      let (r3, told3, s3) = event_off_xstats l3 xstats_enable i s2 in
      (r2 ≡ err ecanceled)
      × (find_hwsdev i s2.l3_list ≡ some (record h { fail_enable = false }))
      × (r3 ≡ success)
      × (find_hwsdev i s3.l3_list ≡ some (record h { fail_enable = false; enabled = true }))
unfolding fail_ifindex event_off_xstats hwsdev_enable
fail_ifindex-enable i h s e =
    let same = (find_hwsdev-some i h s.l3_list e).0 in
    let v1 : Hwsdev = record h { fail_enable = true } in
    let v2 : Hwsdev = record h { fail_enable = false } in
    let v3 : Hwsdev = record v2 { enabled = true } in
    let l1 : List Hwsdev = update_hwsdev i v1 s.l3_list in
    let l2 : List Hwsdev = update_hwsdev i v2 l1 in
    let f1 = find_hwsdev-update_hwsdev i h v1 s.l3_list e same in
    let f2 = find_hwsdev-update_hwsdev i v1 v2 l1 f1 same in
    let f3 = find_hwsdev-update_hwsdev i v2 v3 l2 f2 same in ground (arith, e, f1, f2, f3)

unlink_hwsdev-append :
    (i : ℕ) (v : Hwsdev) (hs : List Hwsdev)
    → find_hwsdev i hs ≡ none
    → v.ifindex ≡ i
    → (find_hwsdev i (hs ++ v ∷ []) ≡ some v) × (unlink_hwsdev i (hs ++ v ∷ []) ≡ hs)
unfolding find_hwsdev unlink_hwsdev
unlink_hwsdev-append i v [] e same = ground (arith, same)
unlink_hwsdev-append i v (h ∷ hs) e same = ground (arith, e, same, unlink_hwsdev-append i v hs)

-- Taking a device that is not in the list off the statistics right after it has been put on them
-- restores the list and the references, and pushes no traffic to the kernel.
pub disable_ifindex-enable_ifindex :
    (in_use in_use' : Bool) (i : ℕ) (s : HwStats)
    → find_hwsdev i s.l3_list ≡ none
    → disable_ifindex in_use' i (enable_ifindex true true in_use i s).2
      ≡ (success, (if in_use' then delta no_stats else no_report), s)
unfolding disable_ifindex enable_ifindex hwsdev_enable
disable_ifindex-enable_ifindex in_use in_use' i s e =
    let off : Hwsdev = record {
      ifindex = i;
      stats = no_stats;
      enabled = false;
      fail_enable = false;
    } in
    let on : Hwsdev = record off { enabled = true } in
    ground (
      arith,
      e,
      unlink_hwsdev-append i off s.l3_list e refl,
      unlink_hwsdev-append i on s.l3_list e refl,
    )
