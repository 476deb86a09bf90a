-- ===== src/Wpc/Nmea.antt =====
-- The search for a GGA sentence of netdevsim/dpll.c. The loops go down what is left of the buffer: `p`
-- and `i` are positions in it.
pub mod Sentences
use netdevsim_dkms.Base.{
  ℕ, zero, suc, ◌+◌, ◌-◌, Bool, true, false, not, ◌&&◌, ◌||◌, Option, none, some, List, [], ◌∷◌,
  ltb, ◌==◌, if◌then◌else◌, length,
}
use netdevsim_dkms.Wpc.{LockStatus, locked_ho_acq, same_status, Ndpll, enter_holdover, enter_locked}

-- `nsim_gga_quality_to_gps_fix`
abbrev pub quality_to_gps_fix : ℕ → ℕ
quality_to_gps_fix q = if q == 0 then 0 else if q == 6 then 1 else 3

-- The digit that follows the fifth comma.
abbrev pub digit : List ℕ → Option ℕ
digit [] = none
digit (y ∷ ys) = if ltb y 48 || ltb 57 y then none else some (y - 48)

-- The inner loop of `nsim_parse_gga_fix`, after `commas` commas.
unfoldable pub gga_field : ℕ → List ℕ → Option ℕ
gga_field commas [] = none
gga_field commas (x ∷ xs) =
    let rest = gga_field commas xs in
    let next = gga_field (suc commas) xs in
    if (x == 42) || (x == 36)
    then none
    else if x == 44
    then if suc commas == 5 then digit xs else next
    else rest

-- Whether "GGA," stands three bytes further on, and what comes after it.
abbrev pub after_gga : List ℕ → Option (List ℕ)
after_gga (s ∷ t ∷ u ∷ g ∷ h ∷ a ∷ c ∷ xs) =
    if (g == 71) && (h == 71) && (a == 65) && (c == 44) then some xs else none
after_gga xs = none

-- The outer loop: the quality of the first GGA sentence, if it has one.
unfoldable pub gga_quality : List ℕ → Option ℕ
gga_quality [] = none
gga_quality (x ∷ xs) =
    let rest = gga_quality xs in
    if not (ltb 10 (length (x ∷ xs)))
    then none
    else if not (x == 36)
    then rest
    else elim (after_gga (x ∷ xs)) [ none ↦ rest | some fields ↦ gga_field 0 fields ]

-- What `nsim_parse_gga_fix` does with the quality.
unfoldable pub set_fix : ℕ → Ndpll → Ndpll
set_fix q d0 =
    let old_fix = d0.gnss_gps_fix in
    let new_fix = quality_to_gps_fix q in
    let d : Ndpll = record d0 { gnss_gps_fix = new_fix } in
    if d.signal_blocked
    then d
    else if (new_fix == 0) && not (old_fix == 0)
    then enter_holdover d
    else if not (new_fix == 0) && ((old_fix == 0) || not (same_status d.lock_status locked_ho_acq))
    then enter_locked d
    else d

unfoldable pub parse_gga_fix : List ℕ → Ndpll → Ndpll
parse_gga_fix buf d = elim (gga_quality buf) [ none ↦ d | some q ↦ set_fix q d ]
