-- ===== src/Ptp/Vclocks/Examples.antt =====
-- Concrete runs of the file n_vclocks of ptp/ptp_sysfs.c.
use netdevsim_dkms.Base.{◌≡◌, false, some, [], ◌∷◌, arith, success}
use netdevsim_dkms.Ptp.Vclocks.{Vclocks, n_vclocks_store}
use netdevsim_dkms.Ptp.Vclocks.Changing.{n_vclocks_store-back}

abbrev one_clock : Vclocks
one_clock = record {
  clocks = 3 ∷ [];
  vclock_index = some 3 ∷ some 0 ∷ some 0 ∷ some 0 ∷ [];
  n_vclocks = 1;
  max_vclocks = 4;
}

n_vclocks_store-back_example :
    let (up, s1) = n_vclocks_store false 3 (some 4 ∷ some 5 ∷ []) one_clock in
    let (down, s2) = n_vclocks_store false 1 [] s1 in
    (up ≡ success)
    × (s1.clocks ≡ 3 ∷ 4 ∷ 5 ∷ [])
    × (s1.n_vclocks ≡ 3)
    × (down ≡ success)
    × (s2.clocks ≡ 3 ∷ [])
    × (s2.n_vclocks ≡ 1)
n_vclocks_store-back_example =
    n_vclocks_store-back (4 ∷ 5 ∷ []) [] [] one_clock (omega arith) (omega arith)
