-- ===== src/Fib/Nexthops/Counting.antt =====
-- The loop that counts a nexthop's entries one by one is an addition with a limit.
use netdevsim_dkms.Base.{
  ℕ, zero, suc, ◌+◌, ◌-◌, ◌≡◌, ◌≤◌, ◌<◌, true, inl, inr, arith, enospc, err, Status, success, ◌==◌,
  leb, if◌then◌else◌, Bool-cases,
}
use netdevsim_dkms.Fib.Resources.{FibEntry}
use netdevsim_dkms.Fib.Nexthops.{add_entries, account}

add_entries-fits :
    (n : ℕ) (e : FibEntry) → e.num + n ≤ e.max → add_entries n e ≡ (n, record e { num = e.num + n })
unfolding add_entries
add_entries-fits zero e h = ground arith
add_entries-fits (suc n) e h =
    let e' : FibEntry = record e { num = e.num + 1 } in
    ground (arith, add_entries-fits n e' (omega arith))

add_entries-full :
    (n : ℕ) (e : FibEntry)
    → e.num ≤ e.max
    → e.max < e.num + n
    → add_entries n e ≡ (e.max - e.num, record e { num = e.max })
unfolding add_entries
add_entries-full zero e le h = absurd (omega arith)
add_entries-full (suc n) e le h =
    let e' : FibEntry = record e { num = e.num + 1 } in
    elim (Bool-cases (e.num == e.max)) [
      | inl at ↦ ground (arith, at)
      | inr below ↦ ground (arith, below, add_entries-full n e')
    ]

-- Entries that are accounted for with a limit.
unfoldable pub account_all : ℕ → FibEntry → Status × FibEntry
account_all occ e =
    if leb (e.num + occ) e.max then (success, record e { num = e.num + occ }) else (err enospc, e)

-- On a counter that has not passed its limit `nsim_nexthop_account` adds all of a nexthop's entries, or
-- fails with ENOSPC and adds none.
pub account-account_all :
    (occ : ℕ) (e : FibEntry) → e.num ≤ e.max → account occ true e ≡ account_all occ e
unfolding account account_all
account-account_all occ e le = elim (Bool-cases (leb (e.num + occ) e.max)) [
  | inl fits ↦ ground (arith, fits, add_entries-fits occ e)
  | inr over ↦ ground (arith, over, add_entries-full occ e)
]
