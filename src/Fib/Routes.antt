-- ===== src/Fib/Routes.antt =====
-- The routes of netdevsim/fib.c: notifications are counted and queued, and a work item takes them to
-- the routes that are held. Between two steps the list and the hash table hold the same routes, so that
-- one list stands for both. Messages, and the flags that are set in the kernel's routes, are left out.
pub mod Keys
use netdevsim_dkms.Base.{
  ℕ, zero, suc, ◌+◌, ◌-◌, Bool, true, false, not, ◌&&◌, Option, none, some, List, [], ◌∷◌, ◌++◌,
  enospc, einval, enomem, Errno, Result, ok, err, Status, success, ◌==◌, if◌then◌else◌, length,
}
use netdevsim_dkms.Fib.Resources.{FibEntry, PerFib, account}
use netdevsim_dkms.Fib.Siblings.{Siblings, nh_add_all, nh_del_all}

pub data Family : Type 0 where
  inet : Family
  inet6 : Family

-- `struct nsim_fib_rt_key`
pub record Key : Type 0 where
  pub addr : ℕ
  pub prefix_len : ℕ
  pub family : Family
  pub tb_id : ℕ

-- What a notification says of an IPv4 route.
pub record Fen4 : Type 0 where
  pub dst : ℕ
  pub dst_len : ℕ
  pub tb_id : ℕ
  pub fi : ℕ
  pub dscp : ℕ
  pub rt_type : ℕ

-- What it says of an IPv6 route: the destination, the length of the source prefix, and the route's
-- nexthops, the first one apart.
pub record Fen6 : Type 0 where
  pub dst : ℕ
  pub plen : ℕ
  pub tb_id : ℕ
  pub src_plen : ℕ
  pub rt : ℕ
  pub siblings : List ℕ

-- `struct nsim_fib4_rt` and `struct nsim_fib6_rt`
pub data Route : Type 0 where
  rt4 : Key → ℕ → ℕ → ℕ → Route
  rt6 : Key → Siblings → Route

pub data Info : Type 0 where
  v4 : Fen4 → Info
  v6 : Fen6 → Info

pub data Kind : Type 0 where
  entry_replace entry_append entry_del : Kind

-- `struct nsim_fib_event`
pub record FibEvent : Type 0 where
  pub kind : Kind
  pub info : Info

-- The routes' part of `struct nsim_fib_data`; `flush` is a flush that is scheduled.
pub record FibData : Type 0 where
  pub ipv4 : PerFib
  pub ipv6 : PerFib
  pub routes : List Route
  pub queue : List FibEvent
  pub flush : Bool
  pub fail_route_offload : Bool
  pub fail_route_delete : Bool

-- What the work on an event meets: whether the route and each of its nexthops are allocated, and what
-- the hash table answers.
pub record WorkAnswers : Type 0 where
  pub mem : Bool
  pub nh_mem : ℕ → Bool
  pub table : Status

abbrev pub key_of : Route → Key
key_of (rt4 k fi dscp t) = k
key_of (rt6 k r) = k

abbrev pub same_family : Family → Family → Bool
same_family inet inet = true
same_family inet6 inet6 = true
same_family inet inet6 = false
same_family inet6 inet = false

abbrev pub same_key : Key → Key → Bool
same_key a b =
    (a.addr == b.addr)
    && (a.prefix_len == b.prefix_len)
    && same_family a.family b.family
    && (a.tb_id == b.tb_id)

abbrev pub key4 : Fen4 → Key
key4 f = record { addr = f.dst; prefix_len = f.dst_len; family = inet; tb_id = f.tb_id }

abbrev pub key6 : Fen6 → Key
key6 f = record { addr = f.dst; prefix_len = f.plen; family = inet6; tb_id = f.tb_id }

-- `rt_arr` of an event.
abbrev pub rt_arr : Fen6 → List ℕ
rt_arr f = f.rt ∷ f.siblings

unfoldable pub rt_lookup : Key → List Route → Option Route
rt_lookup k [] = none
rt_lookup k (r ∷ rs) = if same_key (key_of r) k then some r else rt_lookup k rs

-- A write to the route that the lookup found, and its removal.
unfoldable pub rt_set : Key → Route → List Route → List Route
rt_set k v [] = []
rt_set k v (r ∷ rs) = if same_key (key_of r) k then v ∷ rs else r ∷ rt_set k v rs

unfoldable pub rt_unlink : Key → List Route → List Route
rt_unlink k [] = []
rt_unlink k (r ∷ rs) = if same_key (key_of r) k then rs else r ∷ rt_unlink k rs

-- `nsim_fib_account` on the routes of a family.
abbrev pub account_fib : Family → Bool → FibData → Status × FibData
account_fib inet add s =
    let (r, e) = account s.ipv4.fib add in (r, record s { ipv4 = record s.ipv4 { fib = e } })
account_fib inet6 add s =
    let (r, e) = account s.ipv6.fib add in (r, record s { ipv6 = record s.ipv6 { fib = e } })

-- `nsim_fib4_rt_add` and `nsim_fib6_rt_add`: on failure the accounting is dropped.
unfoldable pub rt_add : Status → Family → Route → FibData → Status × FibData
rt_add (err e) f r s = (err e, (account_fib f false s).1)
rt_add (ok u) f r s = (success, record s { routes = r ∷ s.routes })

-- `nsim_fib4_rt_replace` and `nsim_fib6_rt_replace`: the accounting is dropped first.
unfoldable pub rt_replace : Status → Family → Route → FibData → Status × FibData
rt_replace answer f r s =
    let s' = (account_fib f false s).1 in
    elim answer [
      | err e ↦ (err e, s')
      | ok u ↦ (success, record s' { routes = r ∷ rt_unlink (key_of r) s'.routes })
    ]

unfoldable pub rt_put : Status → Family → Route → FibData → Status × FibData
rt_put answer f r s = elim (rt_lookup (key_of r) s.routes) [
  | none ↦ rt_add answer f r s
  | some old ↦ rt_replace answer f r s
]

unfoldable pub rt4_insert : WorkAnswers → Fen4 → FibData → Status × FibData
rt4_insert ans f s =
    if s.fail_route_offload
    then (err einval, s)
    else if not ans.mem
    then (err enomem, s)
    else rt_put ans.table inet (rt4 (key4 f) f.fi f.dscp f.rt_type) s

unfoldable pub rt4_remove : Fen4 → FibData → FibData
rt4_remove f s = elim (rt_lookup (key4 f) s.routes) [
  | none ↦ s
  | some r ↦ record s { routes = rt_unlink (key4 f) s.routes }
]

unfoldable pub fib4_event : WorkAnswers → Kind → Fen4 → FibData → Status × FibData
fib4_event ans entry_replace f s = rt4_insert ans f s
fib4_event ans entry_append f s = (success, s)
fib4_event ans entry_del f s = (success, rt4_remove f s)

unfoldable pub rt6_create : WorkAnswers → Fen6 → Result Route
rt6_create ans f =
    if not ans.mem
    then err enomem
    else let (added, r) = nh_add_all ans.nh_mem 0 (rt_arr f) (record { nh_list = []; nhs = 0 }) in
      elim added [ err e ↦ err e | ok u ↦ ok (rt6 (key6 f) r) ]

unfoldable pub rt6_insert : WorkAnswers → Fen6 → FibData → Status × FibData
rt6_insert ans f s =
    if s.fail_route_offload
    then (err einval, s)
    else elim (rt6_create ans f) [ err e ↦ (err e, s) | ok r ↦ rt_put ans.table inet6 r s ]

-- The table has routes of the IPv6 kind at IPv6 keys only.
unfoldable pub rt6_append : WorkAnswers → Fen6 → FibData → Status × FibData
rt6_append ans f s =
    if s.fail_route_offload then (err einval, s) else elim (rt_lookup (key6 f) s.routes) [
      | none ↦ (err einval, s)
      | some (rt4 k fi dscp t) ↦ (err einval, s)
      | some (rt6 k r) ↦
          let (added, r') = nh_add_all ans.nh_mem 0 (rt_arr f) r in
          (added, record s { routes = rt_set (key6 f) (rt6 k r') s.routes })
    ]

unfoldable pub rt6_remove : Fen6 → FibData → FibData
rt6_remove f s = elim (rt_lookup (key6 f) s.routes) [
  | none ↦ s
  | some (rt4 k fi dscp t) ↦ s
  | some (rt6 k r) ↦
      if not (length (rt_arr f) == r.nhs)
      then record s { routes = rt_set (key6 f) (rt6 k (nh_del_all (rt_arr f) r)) s.routes }
      else record s { routes = rt_unlink (key6 f) s.routes }
]

unfoldable pub fib6_event : WorkAnswers → Kind → Fen6 → FibData → Status × FibData
fib6_event ans kind f s = if not (f.src_plen == 0) then (success, s) else elim kind [
  | entry_replace ↦ rt6_insert ans f s
  | entry_append ↦ rt6_append ans f s
  | entry_del ↦ (success, rt6_remove f s)
]
