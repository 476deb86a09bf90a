-- ===== src/Wpc/Ubx/Checksum.antt =====
-- The checksum of UBX messages as two sums.
use netdevsim_dkms.Base.{ℕ, suc, ◌+◌, ◌*◌, ◌%◌, ◌≡◌, refl, List, [], ◌∷◌, arith, length}
use netdevsim_dkms.Wpc.Ubx.{checksum_from, ubx_checksum}

-- The sum of the bytes, and the sum of the bytes with the number of bytes from each one on.
unfoldable pub sum : List ℕ → ℕ
sum [] = 0
sum (x ∷ xs) = x + sum xs

unfoldable pub weighted_sum : List ℕ → ℕ
weighted_sum [] = 0
weighted_sum (x ∷ xs) = suc (length xs) * x + weighted_sum xs

-- The loop without the wrap of type u8.
unfoldable sums_from : ℕ → ℕ → List ℕ → ℕ × ℕ
sums_from a b [] = (a, b)
sums_from a b (x ∷ xs) = sums_from (a + x) (b + (a + x)) xs

sums_from-sums :
    (a b : ℕ) (xs : List ℕ) → sums_from a b xs ≡ (a + sum xs, b + (length xs * a + weighted_sum xs))
unfolding sums_from sum weighted_sum
sums_from-sums a b [] = ground arith
sums_from-sums a b (x ∷ xs) = ground (arith, sums_from-sums (a + x) (b + (a + x)) xs)

checksum_from-sums_from :
    (a b : ℕ) (xs : List ℕ)
    → checksum_from (a % 256) (b % 256) xs
      ≡ ((sums_from a b xs).0 % 256, (sums_from a b xs).1 % 256)
unfolding checksum_from sums_from
checksum_from-sums_from a b [] = refl
checksum_from-sums_from a b (x ∷ xs) =
    let e : (a % 256 + x) % 256 ≡ (a + x) % 256 = omega arith in
    let f : (b % 256 + (a + x) % 256) % 256 ≡ (b + (a + x)) % 256 = omega arith in
    ground (arith, e, f, checksum_from-sums_from (a + x) (b + (a + x)) xs)

-- The checksum of a UBX message is, modulo 256, the sum of its bytes, and the sum of its bytes with the
-- number of bytes from each one on as weights.
pub ubx_checksum-sums : (xs : List ℕ) → ubx_checksum xs ≡ (sum xs % 256, weighted_sum xs % 256)
unfolding ubx_checksum
ubx_checksum-sums xs = ground (arith, checksum_from-sums_from 0 0 xs, sums_from-sums 0 0 xs)
