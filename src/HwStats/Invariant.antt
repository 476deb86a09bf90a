-- ===== src/HwStats/Invariant.antt =====
-- What every operation of netdevsim/hwstats.c keeps.
use netdevsim_dkms.Base.{
  ℕ, ◌+◌, ◌-◌, ◌≡◌, refl, ◌∙◌, Bool, true, false, List, [], ◌∷◌, ◌++◌, arith, length, length-append,
  Option-cases, Bool-cases, inl, inr,
}
use netdevsim_dkms.HwStats.{
  no_stats, Hwsdev, HwStats, XstatsType, l3, other, XstatsEvent, bump, traffic_bump, traffic_work,
  find_hwsdev, update_hwsdev, unlink_hwsdev, hwsdev_enable, hwsdev_disable, event_off_xstats,
  event_unregister, enable_ifindex, disable_ifindex, fail_ifindex,
}
use netdevsim_dkms.HwStats.Lists.{
  has_dev, are_distinct, are_quiet, is_quiet, find_hwsdev-none, find_hwsdev-some, find_hwsdev-quiet,
  are_distinct-update_hwsdev, are_quiet-update_hwsdev, length-update_hwsdev,
  are_distinct-unlink_hwsdev, are_quiet-unlink_hwsdev, length-unlink_hwsdev, are_distinct-append,
  are_quiet-append,
}

-- Each device is in the list once, those that are not enabled have no traffic, and each one in the list
-- holds one reference.
pub record IsWellFormed (s : HwStats) : Type 0 where
  pub distinct : are_distinct s.l3_list ≡ true
  pub quiet : are_quiet s.l3_list ≡ true
  pub counted : s.refs ≡ length s.l3_list

has_dev-traffic_bump : (i : ℕ) (hs : List Hwsdev) → has_dev i (traffic_bump hs) ≡ has_dev i hs
unfolding has_dev traffic_bump bump
has_dev-traffic_bump i [] = refl
has_dev-traffic_bump i (h ∷ hs) = ground (arith, has_dev-traffic_bump i hs)

bump-ifindex : (h : Hwsdev) → (bump h).ifindex ≡ h.ifindex
unfolding bump
bump-ifindex h = ground arith

bump-quiet : (h : Hwsdev) → is_quiet h ≡ true → is_quiet (bump h) ≡ true
unfolding bump
bump-quiet h q = elim (Bool-cases h.enabled) [
  | inl on ↦ ground (arith, on)
  | inr off ↦ ground (arith, off, q)
]

traffic_bump-lists :
    (hs : List Hwsdev)
    → are_distinct hs ≡ true
    → are_quiet hs ≡ true
    → (are_distinct (traffic_bump hs) ≡ true)
      × (are_quiet (traffic_bump hs) ≡ true)
      × (length (traffic_bump hs) ≡ length hs)
unfolding are_distinct are_quiet traffic_bump
traffic_bump-lists [] d q = (refl, refl, refl)
traffic_bump-lists (h ∷ hs) d q = ground (
  arith,
  d,
  q,
  traffic_bump-lists hs,
  has_dev-traffic_bump h.ifindex hs,
  bump-ifindex h,
  bump-quiet h,
)

pub traffic_work-IsWellFormed : (s : HwStats) → IsWellFormed s → IsWellFormed (traffic_work s)
unfolding traffic_work
traffic_work-IsWellFormed s v = ground (arith, v, traffic_bump-lists s.l3_list v.distinct v.quiet)

update-IsWellFormed :
    (i : ℕ) (h : Hwsdev) (s : HwStats)
    → h.ifindex ≡ i
    → is_quiet h ≡ true
    → IsWellFormed s
    → IsWellFormed (record s { l3_list = update_hwsdev i h s.l3_list })
update-IsWellFormed i h s same q v = record {
  distinct = are_distinct-update_hwsdev i h same s.l3_list ∙ v.distinct;
  quiet = are_quiet-update_hwsdev i h same s.l3_list q v.quiet;
  counted = ground (arith, v.counted, length-update_hwsdev i h s.l3_list);
}

unlink-IsWellFormed :
    (i : ℕ) (s : HwStats)
    → has_dev i s.l3_list ≡ true
    → IsWellFormed s
    → IsWellFormed (record { l3_list = unlink_hwsdev i s.l3_list; refs = s.refs - 1 })
unlink-IsWellFormed i s held v = record {
  distinct = (are_distinct-unlink_hwsdev i s.l3_list v.distinct).0;
  quiet = are_quiet-unlink_hwsdev i s.l3_list v.quiet;
  counted = omega (arith, v.counted, length-unlink_hwsdev i s.l3_list held);
}

pub event_off_xstats-IsWellFormed :
    (t : XstatsType) (ev : XstatsEvent) (i : ℕ) (s : HwStats)
    → IsWellFormed s
    → IsWellFormed (event_off_xstats t ev i s).2
unfolding event_off_xstats hwsdev_enable hwsdev_disable
event_off_xstats-IsWellFormed other ev i s v = v
event_off_xstats-IsWellFormed l3 ev i s v = elim (Option-cases (find_hwsdev i s.l3_list)) [
  | inl e ↦ ground (arith, e, v)
  | inr (h, e) ↦
      let (same, held) = find_hwsdev-some i h s.l3_list e in
      let q = find_hwsdev-quiet i h s.l3_list e v.quiet in
      let failed : Hwsdev = record h { fail_enable = false } in
      let on : Hwsdev = record h { enabled = true } in
      let empty : Hwsdev = record h { stats = no_stats } in
      ground (
        arith,
        e,
        v,
        update-IsWellFormed i failed s same q v,
        update-IsWellFormed i on s same refl v,
        update-IsWellFormed i (hwsdev_disable h) s same refl v,
        update-IsWellFormed i empty s same (ground arith) v,
      )
]

pub event_unregister-IsWellFormed :
    (i : ℕ) (s : HwStats) → IsWellFormed s → IsWellFormed (event_unregister i s)
unfolding event_unregister
event_unregister-IsWellFormed i s v = elim (Option-cases (find_hwsdev i s.l3_list)) [
  | inl e ↦ ground (arith, e, v)
  | inr (h, e) ↦ ground (arith, e, unlink-IsWellFormed i s (find_hwsdev-some i h s.l3_list e).1 v)
]

append-IsWellFormed :
    (h : Hwsdev) (s : HwStats)
    → has_dev h.ifindex s.l3_list ≡ false
    → is_quiet h ≡ true
    → IsWellFormed s
    → IsWellFormed (record { l3_list = s.l3_list ++ h ∷ []; refs = s.refs + 1 })
append-IsWellFormed h s fresh q v = record {
  distinct = are_distinct-append h s.l3_list fresh v.distinct;
  quiet = are_quiet-append h s.l3_list q v.quiet;
  counted = omega (arith, v.counted, length-append s.l3_list (h ∷ []));
}

pub enable_ifindex-IsWellFormed :
    (known mem in_use : Bool) (i : ℕ) (s : HwStats)
    → IsWellFormed s
    → IsWellFormed (enable_ifindex known mem in_use i s).2
unfolding enable_ifindex hwsdev_enable
enable_ifindex-IsWellFormed known mem in_use i s v = elim (Option-cases (find_hwsdev i s.l3_list)) [
  | inr (h, e) ↦ ground (arith, e, v)
  | inl e ↦
      let fresh = find_hwsdev-none i s.l3_list e in
      let off : Hwsdev = record {
        ifindex = i;
        stats = no_stats;
        enabled = false;
        fail_enable = false;
      } in
      let on : Hwsdev = record off { enabled = true } in
      ground
        (arith, e, v, append-IsWellFormed off s fresh refl v, append-IsWellFormed on s fresh refl v)
]

pub disable_ifindex-IsWellFormed :
    (in_use : Bool) (i : ℕ) (s : HwStats)
    → IsWellFormed s
    → IsWellFormed (disable_ifindex in_use i s).2
unfolding disable_ifindex
disable_ifindex-IsWellFormed in_use i s v = elim (Option-cases (find_hwsdev i s.l3_list)) [
  | inl e ↦ ground (arith, e, v)
  | inr (h, e) ↦ ground (arith, e, unlink-IsWellFormed i s (find_hwsdev-some i h s.l3_list e).1 v)
]

pub fail_ifindex-IsWellFormed :
    (i : ℕ) (s : HwStats) → IsWellFormed s → IsWellFormed (fail_ifindex i s).1
unfolding fail_ifindex
fail_ifindex-IsWellFormed i s v = elim (Option-cases (find_hwsdev i s.l3_list)) [
  | inl e ↦ ground (arith, e, v)
  | inr (h, e) ↦
      let (same, held) = find_hwsdev-some i h s.l3_list e in
      let q = find_hwsdev-quiet i h s.l3_list e v.quiet in
      ground (arith, e, update-IsWellFormed i (record h { fail_enable = true }) s same q v)
]
