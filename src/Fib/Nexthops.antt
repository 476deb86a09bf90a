-- ===== src/Fib/Nexthops.antt =====
-- The nexthops of netdevsim/fib.c: the hash table by id, and the counter of the entries they occupy.
-- What the allocators answer is an argument of each call; the flags that are set in the kernel's
-- nexthops are left out.
pub mod Counting
pub mod Events
mod Examples
use netdevsim_dkms.Base.{
  ℕ, zero, suc, ◌+◌, ◌-◌, Bool, true, false, not, Option, none, some, List, [], ◌∷◌, enospc, einval,
  enomem, eopnotsupp, Errno, Result, ok, err, Status, success, ◌==◌, ltb, if◌then◌else◌,
}
use netdevsim_dkms.Fib.Resources.{FibEntry, add_unless}

-- `struct nsim_nexthop`
pub record Nexthop : Type 0 where
  pub id : ℕ
  pub occ : ℕ
  pub is_resilient : Bool

-- The nexthops' part of `struct nsim_fib_data`.
pub record Nexthops : Type 0 where
  pub entry : FibEntry
  pub table : List Nexthop
  pub fail_res_group_replace : Bool
  pub fail_bucket_replace : Bool

-- What a notification says of a nexthop: a single one, a group with the weights of its members, the
-- buckets of a resilient group, or another type.
pub data NexthopType : Type 0 where
  single : NexthopType
  group : List ℕ → NexthopType
  res_table : ℕ → NexthopType
  other : NexthopType

-- What a call meets: whether the nexthop is allocated, and what the hash table answers.
pub record Answers : Type 0 where
  pub mem : Bool
  pub table : Status

abbrev pub sum : List ℕ → ℕ
sum [] = 0
sum (w ∷ ws) = w + sum ws

unfoldable pub nexthop_create : Bool → ℕ → NexthopType → Result Nexthop
nexthop_create false i t = err enomem
nexthop_create true i single = ok (record { id = i; occ = 1; is_resilient = false })
nexthop_create true i (group ws) = ok (record { id = i; occ = sum ws; is_resilient = false })
nexthop_create true i (res_table n) = ok (record { id = i; occ = n; is_resilient = true })
nexthop_create true i other = err eopnotsupp

-- The loop of `nsim_nexthop_account`: how many of the entries were added before it stopped.
unfoldable pub add_entries : ℕ → FibEntry → ℕ × FibEntry
add_entries zero e = (0, e)
add_entries (suc n) e =
    let (added, e') = add_unless e in
    let (m, e'') = add_entries n e' in if added then (suc m, e'') else (0, e)

unfoldable pub account : ℕ → Bool → FibEntry → Status × FibEntry
account occ true e =
    let (n, e') = add_entries occ e in
    if n == occ then (success, e') else (err enospc, record e' { num = e'.num - n })
account occ false e =
    if ltb e.num occ then (err einval, e) else (success, record e { num = e.num - occ })

unfoldable pub lookup : ℕ → List Nexthop → Option Nexthop
lookup i [] = none
lookup i (n ∷ ns) = if n.id == i then some n else lookup i ns

-- `rhashtable_replace_fast` and `rhashtable_remove_fast` of the nexthop that the lookup found.
unfoldable pub replace : Nexthop → List Nexthop → List Nexthop
replace n [] = []
replace n (m ∷ ns) = if m.id == n.id then n ∷ ns else m ∷ replace n ns

unfoldable pub remove : ℕ → List Nexthop → List Nexthop
remove i [] = []
remove i (n ∷ ns) = if n.id == i then ns else n ∷ remove i ns

unfoldable pub nexthop_add : Status → Nexthop → Nexthops → Status × Nexthops
nexthop_add answer n s =
    let (counted, e) = account n.occ true s.entry in
    elim counted [
      | err x ↦ (err x, record s { entry = e })
      | ok u ↦ elim answer [
        | err x ↦ (err x, record s { entry = (account n.occ false e).1 })
        | ok v ↦ (success, record s { entry = e; table = n ∷ s.table })
      ]
    ]

unfoldable pub nexthop_replace : Status → Nexthop → Nexthop → Nexthops → Status × Nexthops
nexthop_replace answer n old s =
    let (counted, e) = account n.occ true s.entry in
    elim counted [
      | err x ↦ (err x, record s { entry = e })
      | ok u ↦ elim answer [
        | err x ↦ (err x, record s { entry = (account n.occ false e).1 })
        | ok v ↦
            (success, record s { entry = (account old.occ false e).1; table = replace n s.table })
      ]
    ]

unfoldable pub nexthop_insert : Answers → ℕ → NexthopType → Nexthops → Status × Nexthops
nexthop_insert ans i t s = elim (nexthop_create ans.mem i t) [
  | err x ↦ (err x, s)
  | ok n ↦ elim (lookup i s.table) [
    | none ↦ nexthop_add ans.table n s
    | some old ↦ nexthop_replace ans.table n old s
  ]
]

unfoldable pub nexthop_remove : ℕ → Nexthops → Nexthops
nexthop_remove i s = elim (lookup i s.table) [
  | none ↦ s
  | some n ↦ record s { entry = (account n.occ false s.entry).1; table = remove i s.table }
]

-- The notifications of `nsim_nexthop_event_nb`.
pub data Event : Type 0 where
  replace_event : Answers → ℕ → NexthopType → Event
  del_event : ℕ → Event
  res_table_pre_replace : Event
  bucket_replace : Event
  other_event : Event

unfoldable pub event_nb : Event → Nexthops → Status × Nexthops
event_nb (replace_event ans i t) s = nexthop_insert ans i t s
event_nb (del_event i) s = (success, nexthop_remove i s)
event_nb res_table_pre_replace s =
    if s.fail_res_group_replace then (err einval, s) else (success, s)
event_nb bucket_replace s = if s.fail_bucket_replace then (err einval, s) else (success, s)
event_nb other_event s = (success, s)

unfoldable pub run : List Event → Nexthops → Nexthops
run [] s = s
run (v ∷ vs) s = run vs (event_nb v s).1

-- `rhashtable_free_and_destroy` with `nsim_nexthop_free`.
unfoldable pub free_all : List Nexthop → FibEntry → FibEntry
free_all [] e = e
free_all (n ∷ ns) e = free_all ns (account n.occ false e).1
