-- ===== src/Macsec/Channels.antt =====
-- The life of a receive channel in macsec.c: a SecY has room for one.
use netdevsim_dkms.Base.{
  ℕ, zero, suc, ◌<◌, ◌≡◌, refl, subst, ◌≢◌, inl, inr, true, some, none, List, [], ◌∷◌, arith, err,
  enoent, enospc, success, length, set, get_or-set_self, find_index, find_index-passes,
  find_index-set_found, Option-cases, ◌==◌,
}
use netdevsim_dkms.Macsec.{
  Rxsc, Secy, Macsec, zero_rxsc, zero_secy, dec_u8, secy_at, find_secy, find_rxsc, locate, add_rxsc,
  del_rxsc, add_rxsa,
}
use netdevsim_dkms.Macsec.Validity.{SecyIsValid, IsValid, secy_at-IsValid, located, found_secy}

singleton : (xs : List Rxsc) → length xs ≡ 1 → (r : Rxsc) × (xs ≡ r ∷ [])
singleton [] h = absurd (omega arith)
singleton (x ∷ []) h = (x, refl)
singleton (x ∷ y ∷ xs) h = absurd (omega arith)

-- The SecY that was found is found again after a change of its RXSCs.
find_secy-set :
    (m : Macsec) (sci i : ℕ) (s' : Secy)
    → find_secy m sci ≡ some i
    → s'.sci ≡ sci
    → find_secy (record m { secy = set m.secy i s' }) sci ≡ some i
unfolding find_secy
find_secy-set m sci i s' e same =
    find_index-set_found (λ s. s.sci == sci) m.secy i s' e (ground arith)

locate-set :
    (m : Macsec) (sci rx_sci i : ℕ) (s' : Secy)
    → sci ≢ 0
    → IsValid m
    → find_secy m sci ≡ some i
    → s'.sci ≡ sci
    → locate (record m { secy = set m.secy i s' }) sci rx_sci
      ≡ elim (find_rxsc s' rx_sci) [ none ↦ none | some j ↦ some (i, j) ]
unfolding locate
locate-set m sci rx_sci i s' ne v e same =
    let (lt, used, eq) = found_secy m sci i ne v e in
    rw (find_secy-set m sci i s' e same, locate, get_or-set_self m.secy i s' zero_secy lt) refl

find_rxsc-cleared :
    (s : Secy) (j n rx_sci : ℕ)
    → rx_sci ≢ 0
    → SecyIsValid s
    → find_rxsc s rx_sci ≡ some j
    → find_rxsc (record s { rxsc = set s.rxsc j zero_rxsc; rxsc_count = n }) rx_sci ≡ none
unfolding find_rxsc
find_rxsc-cleared s j n rx_sci ne v e =
    let (r, one) = singleton s.rxsc v.size in
    let f = find_index-passes (λ t. t.sci == rx_sci) zero_rxsc s.rxsc j e in
    rw one (cleared r j (subst (λ xs. j < length xs) one f.0))
  where
    cleared :
        (r : Rxsc) (k : ℕ)
        → k < 1
        → find_index (λ t. t.sci == rx_sci) (set (r ∷ []) k zero_rxsc) ≡ none
    cleared r zero h = ground arith
    cleared r (suc k) h = absurd (omega arith)

-- A SecY whose only RXSC slot has been taken.
filled : Secy → ℕ → Secy
filled s rx_sci = record s { rxsc = record { sci = rx_sci; used = true } ∷ []; rxsc_count = 1 }

find_rxsc-filled : (s : Secy) (rx_sci : ℕ) → find_rxsc (filled s rx_sci) rx_sci ≡ some 0
unfolding filled find_rxsc
find_rxsc-filled s rx_sci = ground arith

add_rxsc-filled :
    (m m' : Macsec) (sci rx_sci i : ℕ)
    → find_secy m sci ≡ some i
    → SecyIsValid (secy_at m i)
    → add_rxsc m sci rx_sci ≡ some (success, m')
    → m' ≡ record m { secy = set m.secy i (filled (secy_at m i) rx_sci) }
unfolding add_rxsc filled
add_rxsc-filled m m' sci rx_sci i e v h =
    let (r, one) = singleton (secy_at m i).rxsc v.size in ground (arith, e, one, v.counted)

-- After `nsim_macsec_del_rxsc` has succeeded, on valid tables and for SCIs other than 0, the handlers
-- of the channel's secure associations fail with ENOENT.
pub del_rxsc_gone :
    (m : Macsec) (sci rx_sci : ℕ)
    → sci ≢ 0
    → rx_sci ≢ 0
    → IsValid m
    → (del_rxsc m sci rx_sci).0 ≡ success
    → add_rxsa (del_rxsc m sci rx_sci).1 sci rx_sci ≡ err enoent
unfolding del_rxsc add_rxsa
del_rxsc_gone m sci rx_sci ne ne' v ok = elim (Option-cases (locate m sci rx_sci)) [
  | inl e ↦ cc (rw (e, del_rxsc) at ok)
  | inr ((i, j), e) ↦
      let (e1, e2) = located m sci rx_sci i j e in
      let s : Secy = secy_at m i in
      let (lt, used, same) = found_secy m sci i ne v e1 in
      let s' : Secy = record s {
        rxsc = set s.rxsc j zero_rxsc;
        rxsc_count = dec_u8 s.rxsc_count;
      } in
      let gone =
        find_rxsc-cleared s j (dec_u8 s.rxsc_count) rx_sci ne' (secy_at-IsValid m i v) e2 in
      ground (arith, e, locate-set m sci rx_sci i s' ne v e1 same, gone)
]

-- After `nsim_macsec_add_rxsc` has succeeded, on valid tables and for SCIs other than 0, the handlers
-- of the channel's secure associations succeed, and a second channel on that SecY is refused with
-- ENOSPC.
pub add_rxsc_there :
    (m m' : Macsec) (sci rx_sci other : ℕ)
    → sci ≢ 0
    → IsValid m
    → add_rxsc m sci rx_sci ≡ some (success, m')
    → (add_rxsa m' sci rx_sci ≡ success) × (add_rxsc m' sci other ≡ some (err enospc, m'))
unfolding add_rxsc add_rxsa filled
add_rxsc_there m m' sci rx_sci other ne v h = elim (Option-cases (find_secy m sci)) [
  | inl e ↦ cc (rw (e, add_rxsc) at h)
  | inr (i, e) ↦
      let s : Secy = secy_at m i in
      let (lt, used, same) = found_secy m sci i ne v e in
      let s' : Secy = filled s rx_sci in
      let m'' : Macsec = record m { secy = set m.secy i s' } in
      let added : m' ≡ m'' = add_rxsc-filled m m' sci rx_sci i e (secy_at-IsValid m i v) h in
      let l = locate-set m sci rx_sci i s' ne v e same in
      rw added (
        ground (arith, l, find_rxsc-filled s rx_sci),
        rw (find_secy-set m sci i s' e same, add_rxsc, get_or-set_self m.secy i s' zero_secy lt)
            refl,
      )
]
