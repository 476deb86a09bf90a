-- ===== src/Macsec/Lookup.antt =====
-- The tables of macsec.c as the bag of SCIs that they hold, and what a channel's handlers answer.
use netdevsim_dkms.Base.{
  ℕ, ◌+◌, ◌<◌, ◌≤◌, ◌≡◌, refl, ◌≢◌, ◌⊎◌, inl, inr, true, false, not, arith, err, enoent, enospc,
  success, length, All, All-get_or, count, count-set, count-pos, count-le-length, find_index-passes,
  find_index-of, find_index-not_full, count-none, bit, Option-cases, Bool-cases, ◌==◌,
}
use netdevsim_dkms.Macsec.{
  Secy, Macsec, zero_secy, max_secy_count, secy_at, find_secy, add_secy, del_secy,
}
use netdevsim_dkms.Macsec.Validity.{IsValid, free_secy, found_secy}

-- How many SecYs with a given SCI the table holds.
abbrev pub held : Macsec → ℕ → ℕ
held m sci = count (λ s. s.sci == sci) m.secy

-- On valid tables either the SecY table is full, and `nsim_macsec_add_secy` fails with ENOSPC and
-- leaves it as it was; or it is not, and the call succeeds and adds one SecY with its SCI to the bag
-- of the SCIs other than 0, changing no other.
pub add_secy_refines :
    (m : Macsec) (sci x : ℕ)
    → x ≢ 0
    → IsValid m
    → ((m.secy_count ≡ max_secy_count) × (add_secy m sci ≡ (err enospc, m)))
      ⊎ ((m.secy_count < max_secy_count)
          × ((add_secy m sci).0 ≡ success)
          × (held (add_secy m sci).1 x ≡ held m x + bit (sci == x)))
unfolding add_secy
add_secy_refines m sci x ne v = elim (Bool-cases (m.secy_count == max_secy_count)) [
  | inl full ↦ inl (ground arith, rw full refl)
  | inr room ↦ inr (added (ground arith))
]
  where
    le : count (λ s. s.used) m.secy ≤ length m.secy
    le = count-le-length (λ s. s.used) m.secy

    added :
        m.secy_count ≢ max_secy_count
        → (m.secy_count < max_secy_count)
          × ((add_secy m sci).0 ≡ success)
          × (held (add_secy m sci).1 x ≡ held m x + bit (sci == x))
    added room =
        let lt : m.secy_count < max_secy_count = omega (arith, v.size, v.counted, le) in
        let (i, e) =
          find_index-not_full (λ s. s.used) m.secy (omega (arith, v.size, v.counted, le)) in
        let f = find_index-passes (λ s. not s.used) zero_secy m.secy i e in
        let s' : Secy = record (secy_at m i) { used = true; rxsc_count = 0; sci = sci } in
        let zero = free_secy m i v (ground (arith, f)) in
        let c = count-set (λ s. s.sci == x) zero_secy m.secy i s' f.0 in
        (lt, ground (arith, e), ground (arith, e, zero, c))

-- On valid tables, for an SCI other than 0, either no SecY has it, and `nsim_macsec_del_secy` fails
-- with ENOENT and leaves the tables as they were; or one has, and the call succeeds and takes one
-- SecY with it out of the bag of the SCIs other than 0, changing no other.
pub del_secy_refines :
    (m : Macsec) (sci x : ℕ)
    → sci ≢ 0
    → x ≢ 0
    → IsValid m
    → ((held m sci ≡ 0) × (del_secy m sci ≡ (err enoent, m)))
      ⊎ ((0 < held m sci)
          × ((del_secy m sci).0 ≡ success)
          × (held (del_secy m sci).1 x + bit (sci == x) ≡ held m x))
unfolding del_secy
del_secy_refines m sci x nes nex v = elim (Option-cases (find_secy m sci)) [
  | inl e ↦ inl (unfold find_secy in count-none (λ s. s.sci == sci) m.secy e, rw (e, del_secy) refl)
  | inr (i, e) ↦
      let (lt, used, same) = found_secy m sci i nes v e in
      let c = count-set (λ s. s.sci == x) zero_secy m.secy i zero_secy lt in
      let some_held = count-pos (λ s. s.sci == sci) zero_secy m.secy i lt (ground (arith, same)) in
      inr (some_held, rw (e, del_secy) refl, ground (arith, e, same, c))
]

-- The bug: the search does not look at `used`, so SCI 0 finds a slot that is not in use. On valid
-- tables that are not full and hold no SecY with SCI 0 in use, `nsim_macsec_del_secy` for SCI 0 succeeds and
-- leaves the SecY counter different from the number of used SecYs.
pub del_secy_zero :
    (m : Macsec)
    → IsValid m
    → m.secy_count < max_secy_count
    → All (λ s. (s.used ≡ false) ⊎ (s.sci ≢ 0)) m.secy
    → ((del_secy m 0).0 ≡ success)
      × ((del_secy m 0).1.secy_count ≢ count (λ s. s.used) (del_secy m 0).1.secy)
unfolding del_secy find_secy
del_secy_zero m v room real =
    let (i, e) = find_index-not_full (λ s. s.used) m.secy (omega (arith, v.size, v.counted)) in
    let f = find_index-passes (λ s. not s.used) zero_secy m.secy i e in
    let zero = free_secy m i v (ground (arith, f)) in
    let (j, ej, le) = find_index-of (λ s. s.sci == 0) zero_secy m.secy i f.0 (rw zero refl) in
    let g = find_index-passes (λ s. s.sci == 0) zero_secy m.secy j ej in
    let r = All-get_or (λ s. (s.used ≡ false) ⊎ (s.sci ≢ 0)) m.secy j zero_secy real (inl refl) in
    let c = count-set (λ s. s.used) zero_secy m.secy j zero_secy g.0 in
    (
      ground (arith, ej),
      ground (arith, ej, g, r, c, v.counted, count-le-length (λ s. s.used) m.secy),
    )
