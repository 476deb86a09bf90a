-- ===== src/Wpc/Receiver/Blocking.antt =====
-- The messages to netdevsim/dpll.c that take the GNSS signal away and give it back.
use netdevsim_dkms.Base.{
  ℕ, ◌+◌, ◌-◌, ◌*◌, ◌/◌, ◌%◌, ◌≡◌, refl, ap, ◌∙◌, Bool, true, false, not, ◌&&◌, some, List, [], ◌∷◌,
  ◌++◌, arith, ◌<◌, ◌≤◌, ltb, ◌==◌, if◌then◌else◌, length, length-append,
}
use netdevsim_dkms.Wpc.{locked_ho_acq, holdover, Ndpll}
use netdevsim_dkms.Wpc.Ubx.{put_le32, build_ack}
use netdevsim_dkms.Wpc.Ubx.Decoding.{decode, decode-build_frame}
use netdevsim_dkms.Wpc.Receiver.{
  answer, take, find_infil, set_blocked, write_cfg, write_ubx, write_raw,
}
use netdevsim_dkms.Wpc.Receiver.Setting.{enter_holdover-IsMoved, enter_locked-IsMoved}

-- Keys with values of one byte each, as CFG-VALSET has them.
unfoldable pub items : List (ℕ × ℕ) → List ℕ → List ℕ
items [] rest = rest
items ((k, v) ∷ kvs) rest = put_le32 k ++ v ∷ items kvs rest

-- Keys of 32 bits, none of which is INFIL_NCNOTHRS.
unfoldable pub are_others : List (ℕ × ℕ) → Bool
are_others [] = true
are_others ((k, v) ∷ kvs) = ltb k 4294967296 && not (k == 537985194) && are_others kvs

find_infil-items :
    (kvs : List (ℕ × ℕ)) (v : ℕ) (rest : List ℕ)
    → are_others kvs ≡ true
    → find_infil (items kvs (put_le32 537985194 ++ v ∷ rest)) ≡ some v
unfolding find_infil items put_le32 are_others
find_infil-items [] v rest h = refl
find_infil-items ((k, w) ∷ kvs) v rest h =
    let key : k < 4294967296 = ground (arith, h) in
    let same : k % 256
          + k / 256 % 256 * 256
          + k / 65536 % 256 * 65536
          + k / 16777216 % 256 * 16777216
        ≡ k =
      omega (arith, key) in
    ground (arith, h, same, find_infil-items kvs v rest)

take-append : (xs ys : List ℕ) → take (length xs) (xs ++ ys) ≡ xs
take-append [] ys = refl
take-append (x ∷ xs) ys = ap (λ t. x ∷ t) (take-append xs ys)

length-items : (kvs : List (ℕ × ℕ)) (rest : List ℕ) → length rest ≤ length (items kvs rest)
unfolding items put_le32
length-items [] rest = omega arith
length-items ((k, v) ∷ kvs) rest = omega (arith, length-items kvs rest)

-- A CFG-VALSET message: lengths and four bytes that are not looked at, the keys, and the checksum.
unfoldable pub valset_message : List ℕ → List (ℕ × ℕ) → ℕ → List ℕ → List ℕ → List ℕ
valset_message head kvs v rest ck =
    181 ∷ 98 ∷ 6 ∷ 138 ∷ head ++ (items kvs (put_le32 537985194 ++ v ∷ rest) ++ ck)

write_raw-answer :
    (itow v l0 l1 h0 h1 h2 h3 a b : ℕ) (kvs : List (ℕ × ℕ)) (rest : List ℕ) (d : Ndpll)
    → are_others kvs ≡ true
    → write_raw itow (valset_message (l0 ∷ l1 ∷ h0 ∷ h1 ∷ h2 ∷ h3 ∷ []) kvs v rest (a ∷ b ∷ [])) d
      ≡ answer (build_ack 78 6 138) (set_blocked v d)
unfolding write_raw write_ubx write_cfg valset_message put_le32
write_raw-answer itow v l0 l1 h0 h1 h2 h3 a b kvs rest d others =
    let last : List ℕ = put_le32 537985194 ++ v ∷ rest in
    let content : List ℕ = items kvs last in
    let size = length-append content (a ∷ b ∷ []) in
    let long = length-items kvs last in
    let enough : length (content ++ a ∷ b ∷ []) - 2 ≡ length content = omega (arith, size) in
    let taken =
      ap (λ n. take n (content ++ a ∷ b ∷ [])) enough ∙ take-append content (a ∷ b ∷ []) in
    ground (arith, size, long, taken, find_infil-items kvs v rest others)

-- A CFG-VALSET message with the key INFIL_NCNOTHRS, after any other keys with values of one byte, blocks
-- the signal and starts the holdover if its value is not 0, and gives the signal back and locks the DPLL
-- if it is 0; the answer is an acknowledgement that a receiver of the protocol can read.
pub write_raw-valset_message :
    (itow v l0 l1 h0 h1 h2 h3 a b : ℕ) (kvs : List (ℕ × ℕ)) (rest : List ℕ) (d : Ndpll)
    → are_others kvs ≡ true
    → let d' =
        write_raw itow
          (valset_message (l0 ∷ l1 ∷ h0 ∷ h1 ∷ h2 ∷ h3 ∷ []) kvs v rest (a ∷ b ∷ []))
          d in
      (d'.signal_blocked ≡ ltb 0 v)
      × (d'.gnss_gps_fix ≡ (if ltb 0 v then 0 else 3))
      × (d'.lock_status ≡ (if ltb 0 v then holdover else locked_ho_acq))
      × (d'.holdover_timer ≡ ltb 0 v)
      × ((frame : List ℕ) × (d'.inserted ≡ d.inserted ++ frame ∷ [])
          × (decode frame ≡ some (5, 1, 6 ∷ 138 ∷ [])))
unfolding build_ack set_blocked
write_raw-valset_message itow v l0 l1 h0 h1 h2 h3 a b kvs rest d others =
    let done = write_raw-answer itow v l0 l1 h0 h1 h2 h3 a b kvs rest d others in
    let (frame, built, size, read) =
      decode-build_frame 78 5 1 (6 ∷ 138 ∷ []) (omega arith) (omega arith) in
    let off : Ndpll = record d { signal_blocked = true; gnss_gps_fix = 0 } in
    let on : Ndpll = record d { signal_blocked = false; gnss_gps_fix = 3 } in
    let h = enter_holdover-IsMoved off in
    let l = enter_locked-IsMoved on in
    (
      ground (arith, done, built, h, l),
      ground (arith, done, built, h, l),
      ground (arith, done, built, h, l),
      ground (arith, done, built, h, l),
      (frame, ground (arith, done, built, h, l), read),
    )
