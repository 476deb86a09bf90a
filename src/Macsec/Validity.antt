-- ===== src/Macsec/Validity.antt =====
-- What macsec.c relies on: each counter counts the used entries of its array, and an entry that is
-- not used is clear.
use netdevsim_dkms.Base.{
  ℕ, ◌<◌, ◌≡◌, refl, ◌≢◌, ◌⊎◌, inl, inr, true, false, some, arith, length, set, All, All-get_or,
  All-set, count, count-set, find_index-passes, length-set, ◌==◌,
}
use netdevsim_dkms.Macsec.{
  Rxsc, Secy, Macsec, zero_rxsc, zero_secy, init, max_secy_count, max_rxsc_count, secy_at, rxsc_at,
  find_secy, find_rxsc, locate,
}

abbrev pub RxscIsValid : Rxsc → Type 0
RxscIsValid r = (r.used ≡ true) ⊎ (r ≡ zero_rxsc)

pub record SecyIsValid (s : Secy) : Type 0 where
  pub size : length s.rxsc ≡ max_rxsc_count
  pub counted : s.rxsc_count ≡ count (λ r. r.used) s.rxsc
  pub entries : All RxscIsValid s.rxsc
  pub clear : (s.used ≡ true) ⊎ (s ≡ zero_secy)

pub record IsValid (m : Macsec) : Type 0 where
  pub size : length m.secy ≡ max_secy_count
  pub counted : m.secy_count ≡ count (λ s. s.used) m.secy
  pub entries : All SecyIsValid m.secy

pub zero_secy-IsValid : SecyIsValid zero_secy
zero_secy-IsValid = record {
  size = refl;
  counted = refl;
  entries = (inr refl, tt);
  clear = inr refl;
}

pub init-IsValid : IsValid init
unfolding init
init-IsValid = record {
  size = refl;
  counted = refl;
  entries = (zero_secy-IsValid, (zero_secy-IsValid, (zero_secy-IsValid, tt)));
}

pub secy_at-IsValid : (m : Macsec) (i : ℕ) → IsValid m → SecyIsValid (secy_at m i)
secy_at-IsValid m i v = All-get_or SecyIsValid m.secy i zero_secy v.entries zero_secy-IsValid

-- Replacing a SecY keeps the tables valid, if the counter follows the used flag.
pub set-IsValid :
    (m : Macsec) (i n : ℕ) (s : Secy)
    → IsValid m
    → i < length m.secy
    → SecyIsValid s
    → n ≡ count (λ t. t.used) (set m.secy i s)
    → IsValid (record { secy = set m.secy i s; secy_count = n })
set-IsValid m i n s v lt sv e = record {
  size = omega (arith, v.size, length-set m.secy i s);
  counted = e;
  entries = All-set SecyIsValid m.secy i s v.entries sv;
}

pub free_secy :
    (m : Macsec) (i : ℕ) → IsValid m → (secy_at m i).used ≡ false → secy_at m i ≡ zero_secy
free_secy m i v e = ground (arith, (secy_at-IsValid m i v).clear)

-- A SecY found by a real SCI is in use.
pub found_secy :
    (m : Macsec) (sci i : ℕ)
    → sci ≢ 0
    → IsValid m
    → find_secy m sci ≡ some i
    → (i < length m.secy) × ((secy_at m i).used ≡ true) × ((secy_at m i).sci ≡ sci)
unfolding find_secy
found_secy m sci i ne v e = ground (
  arith,
  find_index-passes (λ s. s.sci == sci) zero_secy m.secy i e,
  (secy_at-IsValid m i v).clear,
)

-- A change of the RXSCs of a SecY leaves the SecY counter right.
pub update_secy-IsValid :
    (m : Macsec) (i : ℕ) (s' : Secy)
    → IsValid m
    → i < length m.secy
    → SecyIsValid s'
    → s'.used ≡ (secy_at m i).used
    → IsValid (record m { secy = set m.secy i s' })
update_secy-IsValid m i s' v lt sv e =
    set-IsValid m i m.secy_count s' v lt sv
      (ground (arith, e, count-set (λ t. t.used) zero_secy m.secy i s' lt, v.counted))

pub set_rxsc-IsValid :
    (s : Secy) (j n : ℕ) (r : Rxsc)
    → SecyIsValid s
    → s.used ≡ true
    → RxscIsValid r
    → n ≡ count (λ t. t.used) (set s.rxsc j r)
    → SecyIsValid (record s { rxsc = set s.rxsc j r; rxsc_count = n })
set_rxsc-IsValid s j n r v used rv e = record {
  size = omega (arith, v.size, length-set s.rxsc j r);
  counted = e;
  entries = All-set RxscIsValid s.rxsc j r v.entries rv;
  clear = inl used;
}

-- What the two searches of a handler give, at real SCIs.
pub located :
    (m : Macsec) (sci rx_sci i j : ℕ)
    → locate m sci rx_sci ≡ some (i, j)
    → (find_secy m sci ≡ some i) × (find_rxsc (secy_at m i) rx_sci ≡ some j)
unfolding locate
located m sci rx_sci i j e = ground arith

pub found_rxsc :
    (s : Secy) (rx_sci j : ℕ)
    → rx_sci ≢ 0
    → SecyIsValid s
    → find_rxsc s rx_sci ≡ some j
    → (j < length s.rxsc) × ((rxsc_at s j).used ≡ true) × ((rxsc_at s j).sci ≡ rx_sci)
unfolding find_rxsc
found_rxsc s rx_sci j ne v e = ground (
  arith,
  find_index-passes (λ r. r.sci == rx_sci) zero_rxsc s.rxsc j e,
  All-get_or RxscIsValid s.rxsc j zero_rxsc v.entries (inr refl),
)
