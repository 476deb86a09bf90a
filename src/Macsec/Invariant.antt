-- ===== src/Macsec/Invariant.antt =====
-- The counters of macsec.c count the used entries, so that no handler leaves its arrays.
use netdevsim_dkms.Base.{
  ℕ, ◌≡◌, refl, ◌≢◌, inl, inr, true, false, not, some, List, [], ◌∷◌, arith, Status, err, enoent,
  enospc, success, set, All, count-set, count-le-length, find_index, find_index-passes,
  find_index-not_full, Option-cases, Bool-cases, ◌==◌,
}
use netdevsim_dkms.Macsec.{
  Rxsc, Secy, Macsec, zero_rxsc, zero_secy, init, inc_u8, dec_u8, max_secy_count, max_rxsc_count,
  secy_at, find_secy, locate, add_secy, del_secy, add_rxsc, del_rxsc,
}
use netdevsim_dkms.Macsec.Validity.{
  SecyIsValid, IsValid, zero_secy-IsValid, init-IsValid, secy_at-IsValid, set-IsValid, free_secy,
  found_secy, update_secy-IsValid, set_rxsc-IsValid, located, found_rxsc,
}
use netdevsim_dkms.Macsec.Calls.{
  Call, mdo_add_secy, mdo_upd_secy, mdo_del_secy, mdo_add_rxsc, mdo_upd_rxsc, mdo_del_rxsc,
  mdo_add_rxsa, mdo_upd_rxsa, mdo_del_rxsa, mdo_add_txsa, mdo_upd_txsa, mdo_del_txsa, step, run,
  HasSci,
}

added_secy-IsValid :
    (m : Macsec) (i sci : ℕ)
    → IsValid m
    → (secy_at m i).used ≡ false
    → SecyIsValid (record (secy_at m i) { used = true; rxsc_count = 0; sci = sci })
added_secy-IsValid m i sci v e =
    rw (free_secy m i v e)
      (record { size = refl; counted = refl; entries = (inr refl, tt); clear = inl refl })

add_secy-IsValid : (m : Macsec) (sci : ℕ) → IsValid m → IsValid (add_secy m sci).1
unfolding add_secy
add_secy-IsValid m sci v = elim (Bool-cases (m.secy_count == max_secy_count)) [
  | inl full ↦ rw full v
  | inr room ↦ rw room (elim (Option-cases (find_index (λ s. not s.used) m.secy)) [
    | inl e ↦ rw e v
    | inr (i, e) ↦
        let f = find_index-passes (λ s. not s.used) zero_secy m.secy i e in
        let free : (secy_at m i).used ≡ false = ground (arith, f) in
        let s' : Secy = record (secy_at m i) { used = true; rxsc_count = 0; sci = sci } in
        rw e (
          set-IsValid m i (inc_u8 m.secy_count) s' v f.0 (added_secy-IsValid m i sci v free) (
            ground (
              arith,
              free,
              count-set (λ t. t.used) zero_secy m.secy i s' f.0,
              count-le-length (λ t. t.used) m.secy,
              v.size,
              v.counted,
            )))
  ])
]

del_secy-IsValid : (m : Macsec) (sci : ℕ) → sci ≢ 0 → IsValid m → IsValid (del_secy m sci).1
unfolding del_secy
del_secy-IsValid m sci ne v = elim (Option-cases (find_secy m sci)) [
  | inl e ↦ rw (e, del_secy) v
  | inr (i, e) ↦
      let (lt, used, same) = found_secy m sci i ne v e in
      rw (e, del_secy)
        (set-IsValid m i (dec_u8 m.secy_count) zero_secy v lt zero_secy-IsValid (
          ground (
            arith,
            used,
            count-set (λ t. t.used) zero_secy m.secy i zero_secy lt,
            count-le-length (λ t. t.used) m.secy,
            v.size,
            v.counted,
          )))
]

-- `nsim_macsec_add_rxsc` stays inside the array, and keeps the tables valid.
add_rxsc-IsValid :
    (m : Macsec) (sci rx_sci : ℕ)
    → sci ≢ 0
    → IsValid m
    → (r : Status) × (m' : Macsec) × (add_rxsc m sci rx_sci ≡ some (r, m')) × IsValid m'
unfolding add_rxsc
add_rxsc-IsValid m sci rx_sci ne v = elim (Option-cases (find_secy m sci)) [
  | inl e ↦ (err enoent, m, rw (e, add_rxsc), v)
  | inr (i, e) ↦ elim (Bool-cases ((secy_at m i).rxsc_count == max_rxsc_count)) [
    | inl full ↦ (err enospc, m, rw (e, add_rxsc, full), v)
    | inr room ↦
        let (lt, used, same) = found_secy m sci i ne v e in
        let s : Secy = secy_at m i in
        let sv : SecyIsValid s = secy_at-IsValid m i v in
        let le = count-le-length (λ t. t.used) s.rxsc in
        let (j, f) =
          find_index-not_full (λ t. t.used) s.rxsc (ground (arith, sv.size, sv.counted, le)) in
        let g = find_index-passes (λ t. not t.used) zero_rxsc s.rxsc j f in
        let r' : Rxsc = record { sci = rx_sci; used = true } in
        let s' : Secy = record s { rxsc = set s.rxsc j r'; rxsc_count = inc_u8 s.rxsc_count } in
        (
          success,
          record m { secy = set m.secy i s' },
          rw (e, add_rxsc, room, f),
          update_secy-IsValid m i s' v lt
              (set_rxsc-IsValid s j (inc_u8 s.rxsc_count) r' sv used (inl refl) (
                ground (
                  arith,
                  g,
                  le,
                  sv.size,
                  sv.counted,
                  count-set (λ t. t.used) zero_rxsc s.rxsc j r' g.0,
                )))
              refl,
        )
  ]
]

del_rxsc-IsValid :
    (m : Macsec) (sci rx_sci : ℕ)
    → sci ≢ 0
    → rx_sci ≢ 0
    → IsValid m
    → IsValid (del_rxsc m sci rx_sci).1
unfolding del_rxsc
del_rxsc-IsValid m sci rx_sci ne ne' v = elim (Option-cases (locate m sci rx_sci)) [
  | inl e ↦ rw (e, del_rxsc) v
  | inr ((i, j), e) ↦
      let (e1, e2) = located m sci rx_sci i j e in
      let (lt, used, same) = found_secy m sci i ne v e1 in
      let s : Secy = secy_at m i in
      let sv : SecyIsValid s = secy_at-IsValid m i v in
      let (lt', used', same') = found_rxsc s rx_sci j ne' sv e2 in
      let s' : Secy = record s {
        rxsc = set s.rxsc j zero_rxsc;
        rxsc_count = dec_u8 s.rxsc_count;
      } in
      rw (e, del_rxsc)
        (update_secy-IsValid m i s' v lt
          (set_rxsc-IsValid s j (dec_u8 s.rxsc_count) zero_rxsc sv used (inr refl) (
            ground (
              arith,
              used',
              count-le-length (λ t. t.used) s.rxsc,
              sv.size,
              sv.counted,
              count-set (λ t. t.used) zero_rxsc s.rxsc j zero_rxsc lt',
            )))
          refl)
]

-- From valid tables no call with real SCIs leaves an array, and the tables stay valid: each counter
-- is the number of used entries of its array, within `u8`, and what is not used is clear.
pub step-IsValid :
    (m : Macsec) (c : Call)
    → HasSci c
    → IsValid m
    → (r : Status) × (m' : Macsec) × (step m c ≡ some (r, m')) × IsValid m'
unfolding step
step-IsValid m (mdo_add_secy s) h v = (_, _, refl, add_secy-IsValid m s v)
step-IsValid m (mdo_upd_secy s) h v = (_, _, refl, v)
step-IsValid m (mdo_del_secy s) h v = (_, _, refl, del_secy-IsValid m s h v)
step-IsValid m (mdo_add_rxsc s r) h v = add_rxsc-IsValid m s r h.0 v
step-IsValid m (mdo_upd_rxsc s r) h v = (_, _, refl, v)
step-IsValid m (mdo_del_rxsc s r) h v = (_, _, refl, del_rxsc-IsValid m s r h.0 h.1 v)
step-IsValid m (mdo_add_rxsa s r) h v = (_, _, refl, v)
step-IsValid m (mdo_upd_rxsa s r) h v = (_, _, refl, v)
step-IsValid m (mdo_del_rxsa s r) h v = (_, _, refl, v)
step-IsValid m (mdo_add_txsa s) h v = (_, _, refl, v)
step-IsValid m (mdo_upd_txsa s) h v = (_, _, refl, v)
step-IsValid m (mdo_del_txsa s) h v = (_, _, refl, v)

run-IsValid :
    (m : Macsec) (cs : List Call)
    → All HasSci cs
    → IsValid m
    → (m' : Macsec) × (run m cs ≡ some m') × IsValid m'
unfolding run
run-IsValid m [] h v = (m, refl, v)
run-IsValid m (c ∷ cs) h v =
    let (r, m', e, v') = step-IsValid m c h.0 v in
    let (m'', e', v'') = run-IsValid m' cs h.1 v' in (m'', rw (e, run) e', v'')

-- Whatever the MACsec core calls on a fresh device, with SCIs other than 0, no handler writes
-- outside its arrays, and in the end each counter is the number of used entries of its array.
pub run-init-IsValid :
    (cs : List Call) → All HasSci cs → (m' : Macsec) × (run init cs ≡ some m') × IsValid m'
run-init-IsValid cs h = run-IsValid init cs h init-IsValid
