-- ===== src/Wpc/Ubx.antt =====
-- The UBX messages of netdevsim/dpll.c. A byte is a number below 256 and a buffer a list of bytes; the
-- time of week is an argument.
pub mod Checksum
pub mod Decoding
use netdevsim_dkms.Base.{
  ℕ, zero, suc, ◌+◌, ◌*◌, ◌/◌, ◌%◌, Bool, true, false, List, [], ◌∷◌, ◌++◌, enospc, Result, ok, err,
  ltb, leb, if◌then◌else◌, length,
}

-- The loop of `ubx_checksum` from sums `a` and `b` on, which are of type u8.
unfoldable pub checksum_from : ℕ → ℕ → List ℕ → ℕ × ℕ
checksum_from a b [] = (a, b)
checksum_from a b (x ∷ xs) = checksum_from ((a + x) % 256) ((b + (a + x) % 256) % 256) xs

unfoldable pub ubx_checksum : List ℕ → ℕ × ℕ
ubx_checksum xs = checksum_from 0 0 xs

unfoldable pub put_le32 : ℕ → List ℕ
put_le32 v = v % 256 ∷ v / 256 % 256 ∷ v / 65536 % 256 ∷ v / 16777216 % 256 ∷ []

unfoldable pub build_frame : ℕ → ℕ → ℕ → List ℕ → Result (List ℕ)
build_frame bufsz cls id payload =
    let n = length payload in
    let head = cls ∷ id ∷ n % 256 ∷ n / 256 % 256 ∷ [] in
    let (ck_a, ck_b) = ubx_checksum (head ++ payload) in
    if ltb bufsz (8 + n) then err enospc else ok (181 ∷ 98 ∷ (head ++ payload) ++ ck_a ∷ ck_b ∷ [])

abbrev pub zeros : ℕ → List ℕ
zeros zero = []
zeros (suc n) = 0 ∷ zeros n

-- "SIM 1.00 (000000)", "00190000" and "PROTVER=29.20", in 30, 10 and 30 bytes.
abbrev pub mon_ver_payload : List ℕ
mon_ver_payload =
    (83 ∷ 73 ∷ 77 ∷ 32 ∷ 49 ∷ 46 ∷ 48 ∷ 48 ∷ 32 ∷ 40 ∷ 48 ∷ 48 ∷ 48 ∷ 48 ∷ 48 ∷ 48 ∷ 41 ∷ zeros 13)
    ++ (48 ∷ 48 ∷ 49 ∷ 57 ∷ 48 ∷ 48 ∷ 48 ∷ 48 ∷ 0 ∷ 0 ∷ [])
    ++ 80 ∷ 82 ∷ 79 ∷ 84 ∷ 86 ∷ 69 ∷ 82 ∷ 61 ∷ 50 ∷ 57 ∷ 46 ∷ 50 ∷ 48 ∷ zeros 17

unfoldable pub build_mon_ver : ℕ → Result (List ℕ)
build_mon_ver bufsz = build_frame bufsz 10 4 mon_ver_payload

unfoldable pub build_mon_hw : ℕ → Result (List ℕ)
build_mon_hw bufsz = build_frame bufsz 10 9 (zeros 20 ++ 2 ∷ 2 ∷ 0 ∷ zeros 37)

unfoldable pub build_ack : ℕ → ℕ → ℕ → Result (List ℕ)
build_ack bufsz acked_cls acked_id = build_frame bufsz 5 1 (acked_cls ∷ acked_id ∷ [])

unfoldable pub nav_status_payload : ℕ → ℕ → List ℕ
nav_status_payload itow gps_fix =
    put_le32 itow
    ++ gps_fix ∷ (if leb 2 gps_fix then 13 else 0) ∷ 0 ∷ 8 ∷ put_le32 1000
    ++ put_le32 60000

unfoldable pub build_nav_status : ℕ → ℕ → ℕ → Result (List ℕ)
build_nav_status bufsz itow gps_fix = build_frame bufsz 1 3 (nav_status_payload itow gps_fix)

unfoldable pub nav_clock_payload : ℕ → ℕ → List ℕ
nav_clock_payload itow gps_fix =
    put_le32 itow
    ++ put_le32 0
    ++ put_le32 0
    ++ put_le32 (if leb 2 gps_fix then 10 else 999999)
    ++ put_le32 10

unfoldable pub build_nav_clock : ℕ → ℕ → ℕ → Result (List ℕ)
build_nav_clock bufsz itow gps_fix = build_frame bufsz 1 34 (nav_clock_payload itow gps_fix)
