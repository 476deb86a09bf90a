-- ===== src/Wpc/Receiver.antt =====
-- What user space writes to the GNSS device of netdevsim/dpll.c.
pub mod Setting
mod Tracking
pub mod Signal
pub mod Writing
pub mod Answers
pub mod Blocking
pub mod Leaving
mod Examples
use netdevsim_dkms.Base.{
  ℕ, zero, suc, ◌+◌, ◌-◌, ◌*◌, Bool, true, false, not, ◌&&◌, ◌||◌, Option, none, some, List, [],
  ◌∷◌, ◌++◌, Result, ok, err, ltb, leb, ◌==◌, if◌then◌else◌, length,
}
use netdevsim_dkms.Wpc.{Ndpll, start_nav, insert, enter_holdover, enter_locked}
use netdevsim_dkms.Wpc.Ubx.{
  build_mon_ver, build_mon_hw, build_ack, build_nav_status, build_nav_clock,
}
use netdevsim_dkms.Wpc.Nmea.{parse_gga_fix}

-- A message that was built is inserted.
abbrev pub answer : Result (List ℕ) → Ndpll → Ndpll
answer (err e) d = d
answer (ok bytes) d = insert bytes d

-- `nsim_ubx_timer_cb`: the two times of week are read one after the other.
unfoldable pub ubx_timer_cb : ℕ → ℕ → Ndpll → Ndpll
ubx_timer_cb itow1 itow2 d =
    if not d.ubx_nav_enabled
    then record d { ubx_timer = false }
    else let d1 = answer (build_nav_status 28 itow1 d.gnss_gps_fix) d in
      let d2 = answer (build_nav_clock 28 itow2 d.gnss_gps_fix) d1 in record d2 { ubx_timer = true }

-- The loop over keys and values of CFG-VALSET: the value of INFIL_NCNOTHRS, if it is found. The list
-- ends where the checksum starts.
unfoldable pub find_infil : List ℕ → Option ℕ
find_infil (a ∷ b ∷ c ∷ e ∷ v ∷ xs) =
    let rest = find_infil xs in
    if a + b * 256 + c * 65536 + e * 16777216 == 537985194 then some v else rest
find_infil xs = none

-- What that value does to the signal.
unfoldable pub set_blocked : ℕ → Ndpll → Ndpll
set_blocked v d =
    if ltb 0 v
    then enter_holdover (record d { signal_blocked = true; gnss_gps_fix = 0 })
    else enter_locked (record d { signal_blocked = false; gnss_gps_fix = 3 })

abbrev pub set_infil : Option ℕ → Ndpll → Ndpll
set_infil none d = d
set_infil (some v) d = set_blocked v d

abbrev pub take : ℕ → List ℕ → List ℕ
take zero xs = []
take (suc n) [] = []
take (suc n) (x ∷ xs) = x ∷ take n xs

-- The keys and values of a CFG-VALSET message that `body` follows the UBX header of.
abbrev pub valset_items : List ℕ → List ℕ
valset_items (v ∷ l ∷ r ∷ s ∷ xs) = take (length xs - 2) xs
valset_items xs = []

unfoldable pub write_mon : ℕ → Ndpll → Ndpll
write_mon id d =
    if id == 4
    then answer (build_mon_ver 78) d
    else if id == 9
    then answer (build_mon_hw 78) d
    else d

-- The test of a CFG-MSG message for NAV-STATUS or NAV-CLOCK.
abbrev pub enables_nav : List ℕ → Bool
enables_nav (c ∷ i ∷ xs) = (c == 1) && ((i == 3) || (i == 34))
enables_nav xs = false

unfoldable pub write_cfg : ℕ → List ℕ → Ndpll → Ndpll
write_cfg id body d =
    if (id == 1) && leb 3 (length body)
    then answer (build_ack 78 6 id) (if enables_nav body then start_nav d else d)
    else if (id == 138) && leb 9 (length body)
    then answer (build_ack 78 6 id) (set_infil (find_infil (valset_items body)) d)
    else if id == 9
    then answer (build_ack 78 6 id) d
    else d

unfoldable pub write_nav : ℕ → ℕ → Ndpll → Ndpll
write_nav itow id d =
    if (id == 3) || (id == 34)
    then (let d1 = start_nav d in
        if id == 3
        then answer (build_nav_status 78 itow d1.gnss_gps_fix) d1
        else answer (build_nav_clock 78 itow d1.gnss_gps_fix) d1)
    else answer (build_ack 78 1 id) d

unfoldable pub write_ubx : ℕ → List ℕ → Ndpll → Ndpll
write_ubx itow (s1 ∷ s2 ∷ cls ∷ id ∷ l0 ∷ l1 ∷ body) d =
    if not (s1 == 181) || not (s2 == 98)
    then d
    else if cls == 10
    then write_mon id d
    else if cls == 6
    then write_cfg id body d
    else if cls == 1
    then write_nav itow id d
    else answer (build_ack 78 cls id) d
write_ubx itow buf d = d

-- `nsim_gnss_write_raw`, which answers with the number of bytes in every case.
unfoldable pub write_raw : ℕ → List ℕ → Ndpll → Ndpll
write_raw itow [] d = d
write_raw itow (x ∷ xs) d =
    if x == 36
    then insert (x ∷ xs) (if not d.signal_blocked then parse_gga_fix (x ∷ xs) d else d)
    else write_ubx itow (x ∷ xs) d
