-- ===== src/Fib/Nexthops/Events.antt =====
-- The counter of nexthop entries in the course of notifications.
use netdevsim_dkms.Base.{
  ℕ, ◌+◌, ◌-◌, ◌≡◌, refl, ◌≤◌, Bool, true, false, ◌⊎◌, inl, inr, some, List, [], ◌∷◌, arith, enospc,
  ok, err, Status, success, Option-cases, Result-cases,
}
use netdevsim_dkms.Fib.Resources.{FibEntry}
use netdevsim_dkms.Fib.Nexthops.{
  Nexthop, Nexthops, NexthopType, Answers, nexthop_create, account, lookup, replace, remove,
  nexthop_add, nexthop_replace, nexthop_insert, nexthop_remove, Event, replace_event, del_event,
  res_table_pre_replace, bucket_replace, other_event, event_nb, run, free_all,
}
use netdevsim_dkms.Fib.Nexthops.Counting.{account_all, account-account_all}

-- The entries that the nexthops of a table occupy.
abbrev pub total : List Nexthop → ℕ
total [] = 0
total (n ∷ ns) = n.occ + total ns

-- The counter is the number of entries that the table occupies, and it has not passed the limit.
pub record IsCounted (s : Nexthops) : Type 0 where
  pub counted : s.entry.num ≡ total s.table
  pub bounded : s.entry.num ≤ s.entry.max

total-replace :
    (n old : Nexthop) (ns : List Nexthop)
    → lookup n.id ns ≡ some old
    → total (replace n ns) + old.occ ≡ total ns + n.occ
unfolding lookup replace
total-replace n old [] h = ground arith
total-replace n old (m ∷ ns) h = ground (arith, total-replace n old ns)

total-remove :
    (i : ℕ) (old : Nexthop) (ns : List Nexthop)
    → lookup i ns ≡ some old
    → total (remove i ns) + old.occ ≡ total ns
unfolding lookup remove
total-remove i old [] h = ground arith
total-remove i old (m ∷ ns) h = ground (arith, total-remove i old ns)

-- What a notification may do: nothing, with or without an error, or a change with a right counter.
abbrev IsSound : Status × Nexthops → Nexthops → Type 0
IsSound r s = IsCounted r.1 × (r.1.entry.max ≡ s.entry.max) × ((r.0 ≡ success) ⊎ (r.1 ≡ s))

account_cases :
    (occ : ℕ) (e : FibEntry)
    → e.num ≤ e.max
    → ((account occ true e ≡ (success, record e { num = e.num + occ })) × (e.num + occ ≤ e.max))
      ⊎ (account occ true e ≡ (err enospc, e))
unfolding account_all
account_cases occ e le = ground (arith, account-account_all occ e le)

account_less :
    (occ : ℕ) (e : FibEntry)
    → occ ≤ e.num
    → account occ false e ≡ (success, record e { num = e.num - occ })
unfolding account
account_less occ e le = ground arith

nexthop_add-IsSound :
    (answer : Status) (n : Nexthop) (s : Nexthops)
    → IsCounted s
    → IsSound (nexthop_add answer n s) s
unfolding nexthop_add
nexthop_add-IsSound answer n s v = elim (account_cases n.occ s.entry v.bounded) [
  | inr full ↦ ground (arith, full, v)
  | inl (added, fits) ↦
      let back = account_less n.occ (record s.entry { num = s.entry.num + n.occ }) (omega arith) in
      elim (Result-cases answer) [
        | inl (x, a) ↦ ground (arith, added, a, back, v)
        | inr (u, a) ↦ ground (arith, added, a, fits, v)
      ]
]

nexthop_replace-IsSound :
    (answer : Status) (n old : Nexthop) (s : Nexthops)
    → IsCounted s
    → lookup n.id s.table ≡ some old
    → IsSound (nexthop_replace answer n old s) s
unfolding nexthop_replace
nexthop_replace-IsSound answer n old s v found =
    let size = total-replace n old s.table found in
    elim (account_cases n.occ s.entry v.bounded) [
      | inr full ↦ ground (arith, full, v)
      | inl (added, fits) ↦
          let e : FibEntry = record s.entry { num = s.entry.num + n.occ } in
          elim (Result-cases answer) [
            | inl (x, a) ↦ ground (arith, added, a, account_less n.occ e (omega arith), v)
            | inr (u, a) ↦ ground (
              arith,
              added,
              a,
              fits,
              account_less old.occ e (omega (arith, size, v.counted)),
              v,
              size,
            )
          ]
    ]

nexthop_create-id :
    (mem : Bool) (i : ℕ) (t : NexthopType) (n : Nexthop) → nexthop_create mem i t ≡ ok n → n.id ≡ i
unfolding nexthop_create
nexthop_create-id mem i t n h = ground arith

nexthop_insert-IsSound :
    (ans : Answers) (i : ℕ) (t : NexthopType) (s : Nexthops)
    → IsCounted s
    → IsSound (nexthop_insert ans i t s) s
unfolding nexthop_insert
nexthop_insert-IsSound ans i t s v = elim (Result-cases (nexthop_create ans.mem i t)) [
  | inl (x, c) ↦ ground (arith, c, v)
  | inr (n, c) ↦ elim (Option-cases (lookup i s.table)) [
    | inl f ↦ ground (arith, c, f, nexthop_add-IsSound ans.table n s v)
    | inr (old, f) ↦
        let named = nexthop_create-id ans.mem i t n c in
        ground (arith, c, f, nexthop_replace-IsSound ans.table n old s v (rw named f))
  ]
]

nexthop_remove-IsCounted : (i : ℕ) (s : Nexthops) → IsCounted s → IsCounted (nexthop_remove i s)
unfolding nexthop_remove
nexthop_remove-IsCounted i s v = elim (Option-cases (lookup i s.table)) [
  | inl f ↦ ground (arith, f, v)
  | inr (n, f) ↦
      let size = total-remove i n s.table f in
      ground (arith, f, size, v, account_less n.occ s.entry (omega (arith, size, v.counted)))
]

nexthop_remove-max : (i : ℕ) (s : Nexthops) → (nexthop_remove i s).entry.max ≡ s.entry.max
unfolding nexthop_remove account
nexthop_remove-max i s = ground arith

-- On a table whose counter is right and has not passed its limit, every notification keeps it so and
-- keeps the limit, and one that is answered with an error changes nothing.
pub event_nb-IsSound :
    (v : Event) (s : Nexthops)
    → IsCounted s
    → IsCounted (event_nb v s).1
      × ((event_nb v s).1.entry.max ≡ s.entry.max)
      × (((event_nb v s).0 ≡ success) ⊎ ((event_nb v s).1 ≡ s))
unfolding event_nb
event_nb-IsSound (replace_event ans i t) s h = nexthop_insert-IsSound ans i t s h
event_nb-IsSound (del_event i) s h =
    (nexthop_remove-IsCounted i s h, nexthop_remove-max i s, inl refl)
event_nb-IsSound res_table_pre_replace s h = ground (arith, h)
event_nb-IsSound bucket_replace s h = ground (arith, h)
event_nb-IsSound other_event s h = ground (arith, h)

run-IsCounted : (vs : List Event) (s : Nexthops) → IsCounted s → IsCounted (run vs s)
unfolding run
run-IsCounted [] s h = h
run-IsCounted (v ∷ vs) s h = run-IsCounted vs (event_nb v s).1 (event_nb-IsSound v s h).0

free_all-num : (ns : List Nexthop) (e : FibEntry) → e.num ≡ total ns → (free_all ns e).num ≡ 0
unfolding free_all
free_all-num [] e h = h
free_all-num (n ∷ ns) e h =
    let e' : FibEntry = record e { num = e.num - n.occ } in
    ground (arith, account_less n.occ e (omega (arith, h)), free_all-num ns e' (omega (arith, h)))

-- After any history of notifications on an empty table, errors included, the release of all nexthops
-- brings the counter back to 0.
pub free_all-run :
    (vs : List Event) (max : ℕ) (group_flag bucket_flag : Bool)
    → let s : Nexthops = run vs (record {
      entry = record { max = max; num = 0 };
      table = [];
      fail_res_group_replace = group_flag;
      fail_bucket_replace = bucket_flag;
    }) in
      (free_all s.table s.entry).num ≡ 0
free_all-run vs max group_flag bucket_flag =
    let s = run-IsCounted vs _ (record { counted = refl; bounded = omega arith }) in
    free_all-num _ _ s.counted
