-- ===== src/Wpc/Ubx/Decoding.antt =====
-- UBX messages as a receiver of the protocol reads them.
use netdevsim_dkms.Base.{
  ℕ, zero, suc, ◌+◌, ◌*◌, ◌/◌, ◌%◌, ◌≡◌, ◌≤◌, ◌<◌, refl, ap, ◌∙◌, Bool, false, ◌&&◌, Option, none,
  some, List, [], ◌∷◌, ◌++◌, arith, ok, ◌==◌, if◌then◌else◌, length, length-append,
}
use netdevsim_dkms.Wpc.Ubx.{ubx_checksum, build_frame}
use netdevsim_dkms.Wpc.Ubx.Checksum.{sum, weighted_sum, ubx_checksum-sums}

abbrev pub take : ℕ → List ℕ → List ℕ
take zero xs = []
take (suc n) [] = []
take (suc n) (x ∷ xs) = x ∷ take n xs

abbrev pub drop : ℕ → List ℕ → List ℕ
drop zero xs = xs
drop (suc n) [] = []
drop (suc n) (x ∷ xs) = drop n xs

-- The two bytes of a checksum, and nothing more.
abbrev pub is_checksum : List ℕ → List ℕ → Bool
is_checksum xs (a ∷ b ∷ []) = (a == sum xs % 256) && (b == weighted_sum xs % 256)
is_checksum xs ys = false

-- The class, the identifier and the payload of a message with the right first bytes, the right length
-- and the right checksum.
unfoldable pub decode : List ℕ → Option (ℕ × ℕ × List ℕ)
decode (s1 ∷ s2 ∷ cls ∷ id ∷ l0 ∷ l1 ∷ body) =
    let n = l0 + l1 * 256 in
    let payload = take n body in
    if (s1 == 181)
      && (s2 == 98)
      && (length payload == n)
      && is_checksum (cls ∷ id ∷ l0 ∷ l1 ∷ payload) (drop n body)
    then some (cls, id, payload)
    else none
decode bytes = none

take-append : (xs ys : List ℕ) → take (length xs) (xs ++ ys) ≡ xs
take-append [] ys = refl
take-append (x ∷ xs) ys = ap (λ t. x ∷ t) (take-append xs ys)

drop-append : (xs ys : List ℕ) → drop (length xs) (xs ++ ys) ≡ ys
drop-append [] ys = refl
drop-append (x ∷ xs) ys = drop-append xs ys

decode_frame :
    (cls id l0 l1 a b : ℕ) (payload : List ℕ)
    → l0 + l1 * 256 ≡ length payload
    → (a, b) ≡ ubx_checksum (cls ∷ id ∷ l0 ∷ l1 ∷ payload)
    → decode (181 ∷ 98 ∷ cls ∷ id ∷ l0 ∷ l1 ∷ (payload ++ a ∷ b ∷ [])) ≡ some (cls, id, payload)
unfolding decode
decode_frame cls id l0 l1 a b payload len ck =
    let rest : List ℕ = payload ++ a ∷ b ∷ [] in
    let sums = ck ∙ ubx_checksum-sums (cls ∷ id ∷ l0 ∷ l1 ∷ payload) in
    let taken = ap (λ n. take n rest) len ∙ take-append payload (a ∷ b ∷ []) in
    let left = ap (λ n. drop n rest) len ∙ drop-append payload (a ∷ b ∷ []) in
    ground (arith, len, taken, left, sums)

-- Every message that fits the buffer is built, and the receiver reads its class, its identifier and its
-- payload.
pub decode-build_frame :
    (bufsz cls id : ℕ) (payload : List ℕ)
    → length payload < 65536
    → 8 + length payload ≤ bufsz
    → (frame : List ℕ) × (build_frame bufsz cls id payload ≡ ok frame)
      × (length frame ≡ 8 + length payload)
      × (decode frame ≡ some (cls, id, payload))
unfolding decode build_frame
decode-build_frame bufsz cls id payload short fits =
    let n = length payload in
    let head : List ℕ = cls ∷ id ∷ n % 256 ∷ n / 256 % 256 ∷ [] in
    let (a, b) = ubx_checksum (head ++ payload) in
    let len : n % 256 + n / 256 % 256 * 256 ≡ n = omega (arith, short) in
    (
      181 ∷ 98 ∷ (head ++ payload) ++ a ∷ b ∷ [],
      ground (arith, fits),
      omega (arith, length-append payload (a ∷ b ∷ [])),
      decode_frame cls id (n % 256) (n / 256 % 256) a b payload len refl,
    )
