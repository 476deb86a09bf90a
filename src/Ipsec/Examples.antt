-- ===== src/Ipsec/Examples.antt =====
-- The theorems about ipsec.c at concrete tables and associations.
use netdevsim_dkms.Base.{
  ◌^◌, ◌+◌, ◌≡◌, refl, ◌⊎◌, inr, true, false, some, [], arith, einval, ok, err, All-replicate,
}
use netdevsim_dkms.Ipsec.{
  Aead, XfrmState, Sa, zero_sa, Ipsec, empty, max_sa_count, crypto, inbound, find_empty_idx,
  parse_proto_keys, add_sa, del_sa,
}
use netdevsim_dkms.Ipsec.Invariant.{IsValid, del, step, step-IsValid}
use netdevsim_dkms.Ipsec.Lifecycle.{del_sa-add_sa}

abbrev gcm : Aead
gcm = record { name = "rfc4106(gcm(aes))"; key_len = 160; icv_len = 128; key = λ i. i + 1 }

-- An inbound IPv4 association over AH.
abbrev over_ah : XfrmState
over_ah = record {
  id = 1;
  proto = 51;
  calg = false;
  ealg = false;
  aead = some gcm;
  offload_type = crypto;
  dir = inbound;
  inet6 = false;
  daddr_a6 = [];
  daddr_a4 = 9;
}

empty-IsValid : IsValid empty
empty-IsValid = record {
  size = refl;
  counted = refl;
  entries =
      All-replicate (λ (a : Sa). (a.used ≡ true) ⊎ (a ≡ zero_sa)) max_sa_count zero_sa (inr refl);
}

added_first : (add_sa empty over_ah).0 ≡ ok (2 ^ 31)
unfolding add_sa find_empty_idx parse_proto_keys
added_first = refl

compressed : (add_sa empty (record over_ah { calg = true })).0 ≡ err einval
unfolding add_sa
compressed = refl

step-IsValid_example : (s' : Ipsec) × (step empty (del (2 ^ 31)) ≡ some s') × IsValid s'
step-IsValid_example = step-IsValid empty (del (2 ^ 31)) (omega arith) empty-IsValid

del_sa-add_sa_example : del_sa (add_sa empty over_ah).1 (2 ^ 31) ≡ some empty
del_sa-add_sa_example = del_sa-add_sa empty over_ah (2 ^ 31) empty-IsValid added_first
