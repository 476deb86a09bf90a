-- ===== src/Ipsec/Lifecycle.antt =====
-- An association that ipsec.c has taken on: its packets pass, and dropping it undoes the rest.
use netdevsim_dkms.Base.{
  ℕ, ◌<◌, ◌≡◌, refl, inl, inr, true, some, List, arith, ok, length, set, set-set, set-get_or, ◌∙◌,
  get_or-set_self, ◌||◌,
}
use netdevsim_dkms.Ipsec.{
  Sa, zero_sa, Ipsec, XfrmState, state, max_sa_count, sa_at, inc_u32, to_handle, supported_proto,
  new_sa, add_sa, del_sa, ipsec_tx, is_some_aead,
}
use netdevsim_dkms.Ipsec.Handle.{from-to_handle}
use netdevsim_dkms.Ipsec.Invariant.{IsValid, stored, add_sa_cases}

-- What a successful addition has done, with the handle that it returned.
added :
    (s : Ipsec) (xs : XfrmState) (h : ℕ)
    → IsValid s
    → (add_sa s xs).0 ≡ ok h
    → (i : ℕ) × (a : Sa) × (add_sa s xs ≡ (ok (to_handle i), stored s i a))
      × (i < max_sa_count)
      × (sa_at s i ≡ zero_sa)
      × (s.count < max_sa_count)
      × (h ≡ to_handle i)
      × (a.used ≡ true)
unfolding new_sa
added s xs h v e = elim (add_sa_cases s xs v) [
  | inl (e', eq) ↦ cc (rw eq at e)
  | inr (i, key, salt, eq, p, lt, zero, room) ↦
      (i, new_sa xs key salt, eq, lt, zero, room, ground (arith, eq), refl)
]

-- Dropping an association just taken on restores a valid table.
pub del_sa-add_sa :
    (s : Ipsec) (xs : XfrmState) (h : ℕ)
    → IsValid s
    → (add_sa s xs).0 ≡ ok h
    → del_sa (add_sa s xs).1 h ≡ some s
unfolding del_sa
del_sa-add_sa s xs h v e =
    let (i, a, eq, lt, zero, room, same, used) = added s xs h v e in
    let t = from-to_handle i lt in
    let lt' : i < length s.sa = omega (arith, v.size) in
    let restored : set (set s.sa i a) i zero_sa ≡ s.sa =
      set-set s.sa i a zero_sa ∙ rw (← zero) (set-get_or s.sa i zero_sa) in
    ground (arith, eq, t, restored, get_or-set_self s.sa i a zero_sa lt')

-- After `nsim_ipsec_add_sa` has succeeded on a valid table, a packet with the association's handle
-- and an ESP or AH protocol passes `nsim_ipsec_tx`, and is counted.
pub ipsec_tx-add_sa :
    (s : Ipsec) (xs : XfrmState) (h proto : ℕ)
    → IsValid s
    → (add_sa s xs).0 ≡ ok h
    → supported_proto proto ≡ true
    → let (passed, s') = ipsec_tx (add_sa s xs).1 (state proto h) in
      (passed ≡ true) × (s'.tx ≡ inc_u32 s.tx)
unfolding ipsec_tx
ipsec_tx-add_sa s xs h proto v e sup =
    let (i, a, eq, lt, zero, room, same, used) = added s xs h v e in
    let lt' : i < length s.sa = omega (arith, v.size) in
    ground (arith, eq, from-to_handle i lt, get_or-set_self s.sa i a zero_sa lt')

-- The bug: `proto & IPPROTO_ESP` is taken for an equation. For both protocols that are accepted, AH
-- too, the entry is marked as encrypted whenever the state has an encryption algorithm.
pub new_sa-crypt :
    (xs : XfrmState) (key : List ℕ) (salt : ℕ)
    → supported_proto xs.proto ≡ true
    → (new_sa xs key salt).crypt ≡ (xs.ealg || is_some_aead xs.aead)
unfolding new_sa
new_sa-crypt xs key salt h = ground arith
