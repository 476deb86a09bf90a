-- ===== src/Ipsec/Invariant.antt =====
-- The counter of the table of ipsec.c is the number of its used entries.
use netdevsim_dkms.Base.{
  ℕ, ◌%◌, ◌^◌, ◌<◌, ◌≡◌, refl, ◌⊎◌, inl, inr, true, false, not, Option, some, List, arith, Errno,
  einval, enospc, Result-cases, ok, err, length, set, All, All-get_or, All-set, length-set, count,
  count-set, count-le-length, find_index-passes, find_index-not_full, Bool-cases, ◌==◌,
}
use netdevsim_dkms.Ipsec.{
  Sa, zero_sa, Ipsec, XfrmState, SecPath, no_path, empty_path, no_state, state, max_sa_count, sa_at,
  inc_u32, dec_u32, to_handle, from_handle, supported_proto, find_empty_idx, parse_proto_keys,
  new_sa, store_sa, is_crypto, add_sa, del_sa, offload_ok, ipsec_tx,
}

pub record IsValid (s : Ipsec) : Type 0 where
  pub size : length s.sa ≡ max_sa_count
  pub counted : s.count ≡ count (λ a. a.used) s.sa
  pub entries : All (λ a. (a.used ≡ true) ⊎ (a ≡ zero_sa)) s.sa

pub free_sa : (s : Ipsec) (i : ℕ) → IsValid s → (sa_at s i).used ≡ false → sa_at s i ≡ zero_sa
free_sa s i v e =
    ground
      (arith, All-get_or (λ a. (a.used ≡ true) ⊎ (a ≡ zero_sa)) s.sa i zero_sa v.entries (inr refl))

-- What a search for a free entry answers on a valid table.
pub find_empty_idx_cases :
    (s : Ipsec)
    → IsValid s
    → ((s.count ≡ max_sa_count) × (find_empty_idx s ≡ err enospc))
      ⊎ ((i : ℕ) × (find_empty_idx s ≡ ok i)
          × (i < max_sa_count)
          × (sa_at s i ≡ zero_sa)
          × (s.count < max_sa_count))
unfolding find_empty_idx
find_empty_idx_cases s v = elim (Bool-cases (s.count == max_sa_count)) [
  | inl full ↦ inl (ground arith, rw full refl)
  | inr room ↦
      let le = count-le-length (λ a. a.used) s.sa in
      let lt : s.count < max_sa_count = ground (arith, le, v.size, v.counted) in
      let (i, e) = find_index-not_full (λ a. a.used) s.sa (omega (arith, v.size, v.counted)) in
      let f = find_index-passes (λ a. not a.used) zero_sa s.sa i e in
      inr (i, rw (room, e) refl, omega (arith, f.0, v.size), free_sa s i v (ground (arith, f)), lt)
]

-- What a successful `nsim_ipsec_add_sa` stores.
abbrev pub stored : Ipsec → ℕ → Sa → Ipsec
stored s i a = record s { sa = set s.sa i a; count = inc_u32 s.count }

store_sa_cases :
    (s : Ipsec) (xs : XfrmState)
    → IsValid s
    → let r = store_sa s xs (find_empty_idx s) (parse_proto_keys xs) in
      ((e : Errno) × (r ≡ (err e, s)))
      ⊎ ((i : ℕ) × (key : List ℕ) × (salt : ℕ) × (r
            ≡ (ok (to_handle i), stored s i (new_sa xs key salt)))
          × (parse_proto_keys xs ≡ ok (key, salt))
          × (i < max_sa_count)
          × (sa_at s i ≡ zero_sa)
          × (s.count < max_sa_count))
unfolding store_sa
store_sa_cases s xs v = elim (find_empty_idx_cases s v) [
  | inl (full, e) ↦ inl (enospc, rw e refl)
  | inr (i, e, lt, zero, room) ↦ elim (Result-cases (parse_proto_keys xs)) [
    | inl (e', p) ↦ inl (e', rw (e, p) refl)
    | inr ((key, salt), p) ↦ inr (i, key, salt, rw (e, p) refl, p, lt, zero, room)
  ]
]

-- `nsim_ipsec_add_sa` on a valid table either fails and leaves the table as it was, or stores the
-- new entry in a free slot and returns the handle of that slot.
pub add_sa_cases :
    (s : Ipsec) (xs : XfrmState)
    → IsValid s
    → ((e : Errno) × (add_sa s xs ≡ (err e, s)))
      ⊎ ((i : ℕ) × (key : List ℕ) × (salt : ℕ) × (add_sa s xs
            ≡ (ok (to_handle i), stored s i (new_sa xs key salt)))
          × (parse_proto_keys xs ≡ ok (key, salt))
          × (i < max_sa_count)
          × (sa_at s i ≡ zero_sa)
          × (s.count < max_sa_count))
unfolding add_sa
add_sa_cases s xs v = elim (Bool-cases (supported_proto xs.proto)) [
  | inr bad ↦ inl (einval, rw bad refl)
  | inl sup ↦ elim (Bool-cases xs.calg) [
    | inl c ↦ inl (einval, simp (sup, c) refl)
    | inr c ↦ elim (Bool-cases (is_crypto xs.offload_type)) [
      | inr bad ↦ inl (einval, simp (sup, c, bad) refl)
      | inl good ↦ simp (sup, c, good) (store_sa_cases s xs v)
    ]
  ]
]

new_sa-used : (xs : XfrmState) (key : List ℕ) (salt : ℕ) → (new_sa xs key salt).used ≡ true
unfolding new_sa
new_sa-used xs key salt = refl

stored-IsValid :
    (s : Ipsec) (i : ℕ) (a : Sa)
    → IsValid s
    → i < max_sa_count
    → sa_at s i ≡ zero_sa
    → s.count < max_sa_count
    → a.used ≡ true
    → IsValid (stored s i a)
stored-IsValid s i a v lt zero room used = record {
  size = omega (arith, v.size, length-set s.sa i a);
  counted =
      let c = count-set (λ b. b.used) zero_sa s.sa i a (omega (arith, v.size)) in
      ground (arith, c, v.counted, zero);
  entries = All-set _ s.sa i a v.entries (inl used);
}

pub add_sa-IsValid : (s : Ipsec) (xs : XfrmState) → IsValid s → IsValid (add_sa s xs).1
add_sa-IsValid s xs v = elim (add_sa_cases s xs v) [
  | inl (e, eq) ↦ rw eq v
  | inr (i, key, salt, eq, p, lt, zero, room) ↦
      rw eq (stored-IsValid s i (new_sa xs key salt) v lt zero room (new_sa-used xs key salt))
]

-- The index that `nsim_ipsec_del_sa` uses.
abbrev pub del_idx : ℕ → ℕ
del_idx handle = from_handle handle % 2 ^ 16

pub del_sa-IsValid :
    (s : Ipsec) (handle : ℕ)
    → del_idx handle < max_sa_count
    → IsValid s
    → (s' : Ipsec) × (del_sa s handle ≡ some s') × IsValid s'
unfolding del_sa
del_sa-IsValid s handle lt v = elim (Bool-cases (sa_at s (del_idx handle)).used) [
  | inr free ↦ (s, ground arith, v)
  | inl used ↦
      let i = del_idx handle in
      let lt' : i < length s.sa = omega (arith, v.size) in
      let c = count-set (λ a. a.used) zero_sa s.sa i zero_sa lt' in
      let le = count-le-length (λ a. a.used) s.sa in
      (
        record s { sa = set s.sa i zero_sa; count = dec_u32 s.count },
        ground arith,
        record {
          size = omega (arith, v.size, length-set s.sa i zero_sa);
          counted = ground (arith, c, le, v.counted, v.size, used);
          entries = All-set _ s.sa i zero_sa v.entries (inr refl);
        },
      )
]

ipsec_tx-IsValid : (s : Ipsec) (p : SecPath) → IsValid s → IsValid (ipsec_tx s p).1
unfolding ipsec_tx
ipsec_tx-IsValid s no_path v = v
ipsec_tx-IsValid s empty_path v = v
ipsec_tx-IsValid s no_state v = v
ipsec_tx-IsValid s (state proto handle) v = ground arith

-- What the stack does with a device: offload an association, drop one, ask for and send packets.
pub data Event : Type 0 where
  add : XfrmState → Event
  del : ℕ → Event
  ask : Event
  send : SecPath → Event

unfoldable pub step : Ipsec → Event → Option Ipsec
step s (add xs) = some (add_sa s xs).1
step s (del handle) = del_sa s handle
step s ask = some (offload_ok s).1
step s (send p) = some (ipsec_tx s p).1

abbrev pub InTable : Event → Type 0
InTable (add xs) = Unit
InTable (del handle) = del_idx handle < max_sa_count
InTable ask = Unit
InTable (send p) = Unit

-- From a valid table, every operation stays inside it and leaves it valid, if the handles that are
-- deleted name one of its 33 slots: the counter is the number of used entries, and what is not
-- used is clear.
pub step-IsValid :
    (s : Ipsec) (e : Event)
    → InTable e
    → IsValid s
    → (s' : Ipsec) × (step s e ≡ some s') × IsValid s'
unfolding step offload_ok
step-IsValid s (add xs) h v = (_, refl, add_sa-IsValid s xs v)
step-IsValid s (del handle) h v = del_sa-IsValid s handle h v
step-IsValid s ask h v =
    (_, refl, record { size = v.size; counted = v.counted; entries = v.entries })
step-IsValid s (send p) h v = (_, refl, ipsec_tx-IsValid s p v)
