-- ===== src/Wpc/Receiver/Answers.antt =====
-- What the GNSS device of netdevsim/dpll.c answers to UBX messages.
use netdevsim_dkms.Base.{
  ℕ, ◌≡◌, refl, Bool, true, false, not, ◌&&◌, ◌||◌, Option, none, some, List, [], ◌∷◌, ◌++◌, arith,
  ◌≤◌, leb, ◌==◌, if◌then◌else◌, length,
}
use netdevsim_dkms.Wpc.{Ndpll, start_nav}
use netdevsim_dkms.Wpc.Ubx.{
  zeros, mon_ver_payload, nav_status_payload, nav_clock_payload, put_le32, build_frame,
  build_mon_ver, build_mon_hw, build_ack, build_nav_status, build_nav_clock,
}
use netdevsim_dkms.Wpc.Ubx.Decoding.{decode, decode-build_frame}
use netdevsim_dkms.Wpc.Receiver.{
  answer, set_infil, find_infil, set_blocked, valset_items, write_mon, write_cfg, write_nav,
  write_ubx,
}
use netdevsim_dkms.Wpc.Receiver.Setting.{enter_holdover-IsMoved, enter_locked-IsMoved}

-- Whether a message is answered: the versions and the hardware of MON, three kinds of CFG, of which two
-- need a payload, and every other class but these.
abbrev pub expects : List ℕ → Bool
expects (s1 ∷ s2 ∷ cls ∷ id ∷ l0 ∷ l1 ∷ body) =
    if not (s1 == 181) || not (s2 == 98)
    then false
    else if cls == 10
    then (if id == 4 then true else if id == 9 then true else false)
    else if cls == 6
    then (if (id == 1) && leb 3 (length body)
        then true
        else if (id == 138) && leb 9 (length body)
        then true
        else if id == 9
        then true
        else false)
    else true
expects buf = false

-- Where an answer is expected one message is inserted that a receiver of the protocol can read, and
-- elsewhere nothing is.
pub data IsAnswer (expected : Bool) (d' d : Ndpll) : Type 0 where
  silent : expected ≡ false → d'.inserted ≡ d.inserted → IsAnswer expected d' d
  answered :
      (frame : List ℕ) (message : ℕ × ℕ × List ℕ)
      → expected ≡ true
      → d'.inserted ≡ d.inserted ++ frame ∷ []
      → decode frame ≡ some message
      → IsAnswer expected d' d

-- The buffer for answers holds 78 bytes.
pub build_frame-answered :
    (cls id : ℕ) (payload : List ℕ) (e d : Ndpll)
    → length payload ≤ 70
    → e.inserted ≡ d.inserted
    → IsAnswer true (answer (build_frame 78 cls id payload) e) d
build_frame-answered cls id payload e d short same =
    let (frame, built, size, read) =
      decode-build_frame 78 cls id payload (omega (arith, short)) (omega (arith, short)) in
    answered frame (cls, id, payload) refl (ground (arith, built, same)) read

if-IsAnswer :
    (b x y : Bool) (d' d2 d : Ndpll)
    → IsAnswer x d' d
    → IsAnswer y d2 d
    → IsAnswer (if b then x else y) (if b then d' else d2) d
if-IsAnswer true x y d' d2 d v w = v
if-IsAnswer false x y d' d2 d v w = w

pub ack-answered :
    (cls id : ℕ) (e d : Ndpll)
    → e.inserted ≡ d.inserted
    → IsAnswer true (answer (build_ack 78 cls id) e) d
unfolding build_ack
ack-answered cls id e d same = build_frame-answered 5 1 (cls ∷ id ∷ []) e d (omega arith) same

write_mon-answered :
    (id : ℕ) (d : Ndpll)
    → IsAnswer (if id == 4 then true else if id == 9 then true else false) (write_mon id d) d
unfolding write_mon build_mon_ver build_mon_hw
write_mon-answered id d =
    if-IsAnswer (id == 4) _ _ _ _ _
      (build_frame-answered 10 4 mon_ver_payload d d (omega arith) refl)
      (if-IsAnswer (id == 9) _ _ _ _ _
        (build_frame-answered 10 9 (zeros 20 ++ 2 ∷ 2 ∷ 0 ∷ zeros 37) d d (omega arith) refl)
        (silent refl refl))

set_blocked-inserted : (v : ℕ) (d : Ndpll) → (set_blocked v d).inserted ≡ d.inserted
unfolding set_blocked
set_blocked-inserted v d =
    let off : Ndpll = record d { signal_blocked = true; gnss_gps_fix = 0 } in
    let on : Ndpll = record d { signal_blocked = false; gnss_gps_fix = 3 } in
    ground (arith, enter_holdover-IsMoved off, enter_locked-IsMoved on)

infil-inserted : (o : Option ℕ) (d : Ndpll) → (set_infil o d).inserted ≡ d.inserted
infil-inserted none d = refl
infil-inserted (some v) d = set_blocked-inserted v d

start_nav-inserted : (d : Ndpll) → (start_nav d).inserted ≡ d.inserted
start_nav-inserted d = ground arith

write_cfg-answered :
    (id : ℕ) (body : List ℕ) (d : Ndpll)
    → IsAnswer
        (if (id == 1) && leb 3 (length body)
          then true
          else if (id == 138) && leb 9 (length body)
          then true
          else if id == 9
          then true
          else false)
        (write_cfg id body d)
        d
unfolding write_cfg
write_cfg-answered id body d =
    if-IsAnswer ((id == 1) && leb 3 (length body)) _ _ _ _ _
      (ack-answered 6 id _ d (ground (arith, start_nav-inserted d)))
      (if-IsAnswer ((id == 138) && leb 9 (length body)) _ _ _ _ _
        (ack-answered 6 id _ d (infil-inserted (find_infil (valset_items body)) d))
        (if-IsAnswer (id == 9) _ _ _ _ _ (ack-answered 6 id d d refl) (silent refl refl)))

if_both :
    (b : Bool) {d' d2 d : Ndpll}
    → IsAnswer true d' d
    → IsAnswer true d2 d
    → IsAnswer true (if b then d' else d2) d
if_both true v w = v
if_both false v w = w

write_nav-answered : (itow id : ℕ) (d : Ndpll) → IsAnswer true (write_nav itow id d) d
unfolding write_nav build_nav_status build_nav_clock nav_status_payload nav_clock_payload put_le32
write_nav-answered itow id d =
    let fix = (start_nav d).gnss_gps_fix in
    let same = start_nav-inserted d in
    if_both ((id == 3) || (id == 34))
      (if_both (id == 3)
        (build_frame-answered 1 3 (nav_status_payload itow fix) (start_nav d) d (omega arith) same)
        (build_frame-answered 1 34 (nav_clock_payload itow fix) (start_nav d) d (omega arith) same))
      (ack-answered 1 id d d refl)

-- The answer to a write that is no NMEA sentence. A MON-VER or MON-HW poll, a CFG-MSG or CFG-VALSET
-- message with its payload, a CFG-CFG message and every message of a class other than MON and CFG are
-- answered with one message, which a receiver of the protocol can read; all else is not answered.
pub write_ubx-answered :
    (itow : ℕ) (buf : List ℕ) (d : Ndpll) → IsAnswer (expects buf) (write_ubx itow buf d) d
unfolding write_ubx
write_ubx-answered itow [] d = silent refl refl
write_ubx-answered itow (a ∷ []) d = silent refl refl
write_ubx-answered itow (a ∷ b ∷ []) d = silent refl refl
write_ubx-answered itow (a ∷ b ∷ c ∷ []) d = silent refl refl
write_ubx-answered itow (a ∷ b ∷ c ∷ e ∷ []) d = silent refl refl
write_ubx-answered itow (a ∷ b ∷ c ∷ e ∷ f ∷ []) d = silent refl refl
write_ubx-answered itow (s1 ∷ s2 ∷ cls ∷ id ∷ l0 ∷ l1 ∷ body) d =
    if-IsAnswer (not (s1 == 181) || not (s2 == 98)) _ _ _ _ _ (silent refl refl) (
      if-IsAnswer (cls == 10) _ _ _ _ _ (write_mon-answered id d) (
        if-IsAnswer (cls == 6) _ _ _ _ _ (write_cfg-answered id body d)
          (if_both (cls == 1) (write_nav-answered itow id d) (ack-answered cls id d d refl))))
