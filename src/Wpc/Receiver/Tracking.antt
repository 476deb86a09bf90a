-- ===== src/Wpc/Receiver/Tracking.antt =====
-- The signal and the lock status through what user space writes to the GNSS device.
use netdevsim_dkms.Base.{
  ℕ, ◌≡◌, Bool, true, false, not, Option, none, some, List, [], ◌∷◌, arith, Result, ok, ◌==◌,
  if◌then◌else◌, Bool-cases, Option-cases, inl, inr,
}
use netdevsim_dkms.Wpc.{Ndpll, start_nav, insert}
use netdevsim_dkms.Wpc.Ubx.{
  build_mon_ver, build_mon_hw, build_ack, build_nav_status, build_nav_clock,
}
use netdevsim_dkms.Wpc.Nmea.{gga_quality, parse_gga_fix}
use netdevsim_dkms.Wpc.Receiver.{
  answer, set_infil, ubx_timer_cb, find_infil, valset_items, write_mon, write_cfg, write_nav,
  write_ubx, write_raw,
}
use netdevsim_dkms.Wpc.Receiver.Setting.{
  IsTracking, IsTracking-IsAlike, answer-IsAlike, start_nav-IsAlike, set_blocked-IsTracking,
  set_fix-IsTracking,
}

if-IsTracking :
    (b : Bool) (d e : Ndpll) → IsTracking d → IsTracking e → IsTracking (if b then d else e)
if-IsTracking true d e v w = v
if-IsTracking false d e v w = w

answer-IsTracking : (r : Result (List ℕ)) (d : Ndpll) → IsTracking d → IsTracking (answer r d)
answer-IsTracking r d v = IsTracking-IsAlike (answer r d) d (answer-IsAlike r d) v

pub start_nav-IsTracking : (d : Ndpll) → IsTracking d → IsTracking (start_nav d)
start_nav-IsTracking d v = IsTracking-IsAlike (start_nav d) d (start_nav-IsAlike d) v

infil-IsTracking : (o : Option ℕ) (d : Ndpll) → IsTracking d → IsTracking (set_infil o d)
infil-IsTracking none d v = v
infil-IsTracking (some x) d v = set_blocked-IsTracking x d

parse_gga_fix-IsTracking :
    (buf : List ℕ) (d : Ndpll)
    → d.signal_blocked ≡ false
    → IsTracking d
    → IsTracking (parse_gga_fix buf d)
unfolding parse_gga_fix
parse_gga_fix-IsTracking buf d free v = elim (Option-cases (gga_quality buf)) [
  | inl e ↦ ground (arith, e, v)
  | inr (q, e) ↦ ground (arith, e, set_fix-IsTracking q d free v)
]

write_mon-IsTracking : (id : ℕ) (d : Ndpll) → IsTracking d → IsTracking (write_mon id d)
unfolding write_mon
write_mon-IsTracking id d v =
    ground
      (arith, v, answer-IsTracking (build_mon_ver 78) d v, answer-IsTracking (build_mon_hw 78) d v)

write_cfg-IsTracking :
    (id : ℕ) (body : List ℕ) (d : Ndpll) → IsTracking d → IsTracking (write_cfg id body d)
unfolding write_cfg
write_cfg-IsTracking id body d v =
    let ack = build_ack 78 6 id in
    if-IsTracking _ _ _ (answer-IsTracking ack _ (if-IsTracking _ _ _ (start_nav-IsTracking d v) v))
      (if-IsTracking _ _ _
        (answer-IsTracking ack _ (infil-IsTracking (find_infil (valset_items body)) d v))
        (if-IsTracking _ _ _ (answer-IsTracking ack d v) v))

write_nav-IsTracking : (itow id : ℕ) (d : Ndpll) → IsTracking d → IsTracking (write_nav itow id d)
unfolding write_nav
write_nav-IsTracking itow id d v =
    let d1 : Ndpll = start_nav d in
    let v1 = start_nav-IsTracking d v in
    if-IsTracking _ _ _
      (if-IsTracking _ _ _ (answer-IsTracking (build_nav_status 78 itow d1.gnss_gps_fix) d1 v1)
        (answer-IsTracking (build_nav_clock 78 itow d1.gnss_gps_fix) d1 v1))
      (answer-IsTracking (build_ack 78 1 id) d v)

write_ubx-IsTracking :
    (itow : ℕ) (buf : List ℕ) (d : Ndpll) → IsTracking d → IsTracking (write_ubx itow buf d)
unfolding write_ubx
write_ubx-IsTracking itow [] d v = v
write_ubx-IsTracking itow (a ∷ []) d v = v
write_ubx-IsTracking itow (a ∷ b ∷ []) d v = v
write_ubx-IsTracking itow (a ∷ b ∷ c ∷ []) d v = v
write_ubx-IsTracking itow (a ∷ b ∷ c ∷ e ∷ []) d v = v
write_ubx-IsTracking itow (a ∷ b ∷ c ∷ e ∷ f ∷ []) d v = v
write_ubx-IsTracking itow (s1 ∷ s2 ∷ cls ∷ id ∷ l0 ∷ l1 ∷ body) d v = ground (
  arith,
  v,
  write_mon-IsTracking id d v,
  write_cfg-IsTracking id body d v,
  write_nav-IsTracking itow id d v,
  answer-IsTracking (build_ack 78 cls id) d v,
)

pub write_raw-IsTracking :
    (itow : ℕ) (buf : List ℕ) (d : Ndpll) → IsTracking d → IsTracking (write_raw itow buf d)
unfolding write_raw
write_raw-IsTracking itow [] d v = v
write_raw-IsTracking itow (x ∷ xs) d v =
    let echo : (e : Ndpll) → IsTracking e → IsTracking (insert (x ∷ xs) e) =
      λ e w. answer-IsTracking (ok (x ∷ xs)) e w in
    let d1 : Ndpll = if not d.signal_blocked then parse_gga_fix (x ∷ xs) d else d in
    if-IsTracking (x == 36) _ _
      (echo d1 (elim (Bool-cases d.signal_blocked) [
        | inl b ↦ ground (arith, b, v)
        | inr b ↦ ground (arith, b, parse_gga_fix-IsTracking (x ∷ xs) d b v)
      ]))
      (write_ubx-IsTracking itow (x ∷ xs) d v)

pub ubx_timer_cb-IsTracking : (i j : ℕ) (d : Ndpll) → IsTracking d → IsTracking (ubx_timer_cb i j d)
unfolding ubx_timer_cb
ubx_timer_cb-IsTracking i j d v =
    let d1 : Ndpll = answer (build_nav_status 28 i d.gnss_gps_fix) d in
    let d2 : Ndpll = answer (build_nav_clock 28 j d.gnss_gps_fix) d1 in
    let v1 = answer-IsTracking (build_nav_status 28 i d.gnss_gps_fix) d v in
    let v2 = answer-IsTracking (build_nav_clock 28 j d.gnss_gps_fix) d1 v1 in ground (arith, v, v2)
