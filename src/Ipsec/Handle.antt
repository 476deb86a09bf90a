-- ===== src/Ipsec/Handle.antt =====
-- The handle of an entry is its index with bit 31 set.
use netdevsim_dkms.Base.{
  ℕ, zero, suc, ◌<◌, ◌≡◌, refl, ◌≢◌, Bool, true, false, not, arith, ◌==◌, if◌then◌else◌,
}
use netdevsim_dkms.Ipsec.{max_sa_count, to_handle, from_handle}

-- A test at every index of the table, from the last one down.
passes_to : (ℕ → Bool) → ℕ → Bool
passes_to test zero = true
passes_to test (suc k) = if test k then passes_to test k else false

passes_to-at : (test : ℕ → Bool) (k i : ℕ) → passes_to test k ≡ true → i < k → test i ≡ true
unfolding passes_to
passes_to-at test zero i all lt = absurd (omega arith)
passes_to-at test (suc k) i all lt = ground (arith, passes_to-at test k i)

handle_table : passes_to (λ i. from_handle (to_handle i) == i) max_sa_count ≡ true
unfolding passes_to
handle_table = refl

-- The handle of an index of the table gives the index back.
pub from-to_handle : (i : ℕ) → i < max_sa_count → from_handle (to_handle i) ≡ i
from-to_handle i h =
    let t = passes_to-at (λ j. from_handle (to_handle j) == j) max_sa_count i handle_table h in
    ground (arith, t)

nonzero_table : passes_to (λ i. not (to_handle i == 0)) max_sa_count ≡ true
unfolding passes_to
nonzero_table = refl

-- A handle is never 0, which the XFRM stack takes for none.
pub to_handle-ne-zero : (i : ℕ) → i < max_sa_count → to_handle i ≢ 0
to_handle-ne-zero i h e =
    let t = passes_to-at (λ j. not (to_handle j == 0)) max_sa_count i nonzero_table h in
    ground (arith, t)
