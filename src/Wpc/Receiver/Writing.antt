-- ===== src/Wpc/Receiver/Writing.antt =====
-- What a write to the GNSS device of netdevsim/dpll.c does, and what it is answered with.
use netdevsim_dkms.Base.{
  ℕ, ◌≡◌, refl, Bool, true, false, not, some, List, [], ◌∷◌, ◌++◌, arith, ◌<◌, ◌==◌, if◌then◌else◌,
  length,
}
use netdevsim_dkms.Wpc.{locked_ho_acq, holdover, Ndpll, insert}
use netdevsim_dkms.Wpc.Nmea.{gga_quality, set_fix, parse_gga_fix, quality_to_gps_fix}
use netdevsim_dkms.Wpc.Nmea.Sentences.{has_gga, are_plain, gga_sentence, gga_quality-printed}
use netdevsim_dkms.Wpc.Receiver.{write_raw}
use netdevsim_dkms.Wpc.Receiver.Setting.{
  same_status-same, enter_holdover-IsMoved, enter_locked-IsMoved,
}

set_fix-status :
    (q : ℕ) (d : Ndpll)
    → d.signal_blocked ≡ false
    → ((set_fix q d).gnss_gps_fix ≡ quality_to_gps_fix q)
      × ((set_fix q d).inserted ≡ d.inserted)
      × ((set_fix q d).lock_status ≡ (
          if not (q == 0)
          then locked_ho_acq
          else if d.gnss_gps_fix == 0
          then d.lock_status
          else holdover))
unfolding set_fix
set_fix-status q d free =
    let e : Ndpll = record d { gnss_gps_fix = quality_to_gps_fix q } in
    let same = same_status-same d.lock_status locked_ho_acq in
    ground (arith, free, same, enter_holdover-IsMoved e, enter_locked-IsMoved e)

-- Whether a buffer is empty or starts with `$`.
abbrev pub starts : List ℕ → Bool
starts [] = true
starts (x ∷ xs) = x == 36

starts-append :
    (before : List ℕ) (t u : ℕ) (fs : List (List ℕ)) (q : ℕ) (rest : List ℕ)
    → starts before ≡ true
    → starts (before ++ gga_sentence t u fs q rest) ≡ true
unfolding gga_sentence
starts-append [] t u fs q rest h = refl
starts-append (x ∷ before) t u fs q rest h = h

write_raw-dollar :
    (itow : ℕ) (buf : List ℕ) (q : ℕ) (d : Ndpll)
    → starts buf ≡ true
    → gga_quality buf ≡ some q
    → d.signal_blocked ≡ false
    → write_raw itow buf d ≡ insert buf (set_fix q d)
unfolding write_raw parse_gga_fix gga_quality
write_raw-dollar itow [] q d s g free = ground (arith, g)
write_raw-dollar itow (x ∷ xs) q d s g free = ground (arith, s, g, free)

-- When the signal is not blocked and user space writes NMEA sentences of other kinds, then a GGA
-- sentence and then anything, the fix is that of the GGA sentence; a quality other than 0 locks the
-- DPLL, 0 brings it into holdover if there was a fix before; and the bytes are echoed as they are.
pub write_raw-gga_sentence :
    (itow : ℕ) (before : List ℕ) (t u q : ℕ) (fs : List (List ℕ)) (rest : List ℕ) (d : Ndpll)
    → starts before ≡ true
    → has_gga before ≡ false
    → length fs ≡ 5
    → are_plain fs ≡ true
    → q < 10
    → d.signal_blocked ≡ false
    → let buf = before ++ gga_sentence t u fs q rest in
      let d' = write_raw itow buf d in
      (d'.gnss_gps_fix ≡ quality_to_gps_fix q)
      × (d'.lock_status ≡ (
          if not (q == 0)
          then locked_ho_acq
          else if d.gnss_gps_fix == 0
          then d.lock_status
          else holdover))
      × (d'.inserted ≡ d.inserted ++ buf ∷ [])
write_raw-gga_sentence itow before t u q fs rest d start other five plain small free =
    let buf : List ℕ = before ++ gga_sentence t u fs q rest in
    let read = gga_quality-printed before t u q fs rest other five plain small in
    let written =
      write_raw-dollar itow buf q d (starts-append before t u fs q rest start) read free in
    ground (arith, written, set_fix-status q d free)
