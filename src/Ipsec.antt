-- ===== src/Ipsec.antt =====
-- netdevsim/ipsec.c: the table of offloaded security associations of a simulated device, with the
-- sizes and types of netdevsim/netdevsim.h. The fields of `struct xfrm_state` that the code reads are
-- an argument of each call; the one that it writes, `xso.offload_handle`, is returned.
pub mod Handle
pub mod Invariant
pub mod Lifecycle
mod Examples
use Prim.Native.Nat.{bit_and, bit_or}
use Prim.Native.String.{String}
use text.Mathlib.Text.{◌==◌ as str_eq}
use netdevsim_dkms.Base.{
  ℕ, ◌+◌, ◌-◌, ◌%◌, ◌^◌, Bool, true, false, not, ◌&&◌, ◌||◌, Option, none, some, List, [], ◌∷◌,
  Errno, einval, enospc, Result, ok, err, ◌==◌, ltb, leb, if◌then◌else◌, get_or, set, replicate,
  find_index,
}

abbrev pub max_sa_count : ℕ
max_sa_count = 33

-- `BIT(31)`
abbrev pub ipsec_valid : ℕ
ipsec_valid = 2 ^ 31

abbrev pub auth_bits : ℕ
auth_bits = 128

abbrev pub ipproto_esp : ℕ
ipproto_esp = 50

abbrev pub ipproto_ah : ℕ
ipproto_ah = 51

-- `xso.type` and `xso.dir`
pub data OffloadType : Type 0 where
  unspecified crypto packet : OffloadType

pub data Direction : Type 0 where
  inbound outbound forward : Direction

-- `struct xfrm_algo_aead`; `key` is the 32-bit words in memory from `alg_key` on.
pub record Aead : Type 0 where
  pub name : String
  pub key_len : ℕ
  pub icv_len : ℕ
  pub key : ℕ → ℕ

-- What the code reads of `struct xfrm_state`; `id` is its address.
pub record XfrmState : Type 0 where
  pub id : ℕ
  pub proto : ℕ
  pub calg : Bool
  pub ealg : Bool
  pub aead : Option Aead
  pub offload_type : OffloadType
  pub dir : Direction
  pub inet6 : Bool
  pub daddr_a6 : List ℕ
  pub daddr_a4 : ℕ

-- `struct nsim_sa`
pub record Sa : Type 0 where
  pub xs : ℕ
  pub ipaddr : List ℕ
  pub key : List ℕ
  pub salt : ℕ
  pub used : Bool
  pub crypt : Bool
  pub rx : Bool

abbrev pub zero_sa : Sa
zero_sa = record {
  xs = 0;
  ipaddr = replicate 4 0;
  key = replicate 4 0;
  salt = 0;
  used = false;
  crypt = false;
  rx = false;
}

-- `struct nsim_ipsec`
pub record Ipsec : Type 0 where
  pub sa : List Sa
  pub count : ℕ
  pub tx : ℕ
  pub oks : ℕ

abbrev pub empty : Ipsec
empty = record { sa = replicate max_sa_count zero_sa; count = 0; tx = 0; oks = 0 }

abbrev pub inc_u32 : ℕ → ℕ
inc_u32 x = (x + 1) % 2 ^ 32

abbrev pub dec_u32 : ℕ → ℕ
dec_u32 x = (x + (2 ^ 32 - 1)) % 2 ^ 32

abbrev pub sa_at : Ipsec → ℕ → Sa
sa_at s i = get_or s.sa i zero_sa

-- `sa_idx | NSIM_IPSEC_VALID` and `handle & ~NSIM_IPSEC_VALID`, on an `unsigned long`
abbrev pub to_handle : ℕ → ℕ
to_handle i = bit_or i ipsec_valid

abbrev pub from_handle : ℕ → ℕ
from_handle h = bit_and h (2 ^ 64 - 1 - ipsec_valid)

pub find_empty_idx : Ipsec → Result ℕ
find_empty_idx s =
    if s.count == max_sa_count
    then err enospc
    else elim (find_index (λ a. not a.used) s.sa) [ none ↦ err enospc | some i ↦ ok i ]

-- The key and the salt of an AES-GCM algorithm.
aead_keys : Aead → Result (List ℕ × ℕ)
aead_keys a =
    let words : List ℕ = a.key 0 ∷ a.key 1 ∷ a.key 2 ∷ a.key 3 ∷ [] in
    if not (a.icv_len == auth_bits)
    then err einval
    else if not (str_eq a.name "rfc4106(gcm(aes))")
    then err einval
    else if ltb auth_bits a.key_len
    then ok (words, a.key 4)
    else if a.key_len == auth_bits
    then ok (words, 0)
    else err einval

pub parse_proto_keys : XfrmState → Result (List ℕ × ℕ)
unfolding aead_keys
parse_proto_keys xs = elim xs.aead [ none ↦ err einval | some a ↦ aead_keys a ]

pub is_some_aead : Option Aead → Bool
is_some_aead none = false
is_some_aead (some a) = true

is_crypto : OffloadType → Bool
is_crypto crypto = true
is_crypto _ = false

is_inbound : Direction → Bool
is_inbound inbound = true
is_inbound _ = false

abbrev pub supported_proto : ℕ → Bool
supported_proto p = (p == ipproto_esp) || (p == ipproto_ah)

-- The entry that `nsim_ipsec_add_sa` prepares.
pub new_sa : XfrmState → List ℕ → ℕ → Sa
unfolding is_some_aead is_inbound
new_sa xs key salt = record {
  xs = xs.id;
  ipaddr =
      if is_inbound xs.dir
      then (if xs.inet6 then xs.daddr_a6 else 0 ∷ 0 ∷ 0 ∷ xs.daddr_a4 ∷ [])
      else replicate 4 0;
  key = key;
  salt = salt;
  used = true;
  crypt = if bit_and xs.proto ipproto_esp == 0 then false else (xs.ealg || is_some_aead xs.aead);
  rx = is_inbound xs.dir;
}

store_sa : Ipsec → XfrmState → Result ℕ → Result (List ℕ × ℕ) → Result ℕ × Ipsec
store_sa s xs (err e) keys = (err e, s)
store_sa s xs (ok i) (err e) = (err e, s)
store_sa s xs (ok i) (ok (key, salt)) =
    (ok (to_handle i), record s { sa = set s.sa i (new_sa xs key salt); count = inc_u32 s.count })

-- `ok h`: the call returns 0 and has set `xso.offload_handle` to `h`.
pub add_sa : Ipsec → XfrmState → Result ℕ × Ipsec
unfolding store_sa is_crypto
add_sa s xs =
    if not (supported_proto xs.proto)
    then (err einval, s)
    else if xs.calg
    then (err einval, s)
    else if not (is_crypto xs.offload_type)
    then (err einval, s)
    else store_sa s xs (find_empty_idx s) (parse_proto_keys xs)

-- The index is cut to 16 bits and not compared with the size of the table: `none` is an access
-- outside it.
pub del_sa : Ipsec → ℕ → Option Ipsec
del_sa s handle =
    let i = from_handle handle % 2 ^ 16 in
    if leb max_sa_count i
    then none
    else if not (sa_at s i).used
    then some s
    else some (record s { sa = set s.sa i zero_sa; count = dec_u32 s.count })

pub offload_ok : Ipsec → Bool × Ipsec
offload_ok s = (true, record s { oks = inc_u32 s.oks })

-- A packet: no `sec_path`, an empty one, one with no state, or the protocol and handle of its state.
pub data SecPath : Type 0 where
  no_path empty_path no_state : SecPath
  state : ℕ → ℕ → SecPath

tx_state : Ipsec → ℕ → ℕ → Bool × Ipsec
tx_state s proto handle =
    let i = from_handle handle % 2 ^ 32 in
    if leb max_sa_count i
    then (false, s)
    else if not (sa_at s i).used
    then (false, s)
    else if not (supported_proto proto)
    then (false, s)
    else (true, record s { tx = inc_u32 s.tx })

pub ipsec_tx : Ipsec → SecPath → Bool × Ipsec
unfolding tx_state
ipsec_tx s no_path = (true, s)
ipsec_tx s empty_path = (false, s)
ipsec_tx s no_state = (false, s)
ipsec_tx s (state proto handle) = tx_state s proto handle
