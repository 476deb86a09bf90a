-- ===== src/Fib/Siblings.antt =====
-- The list of nexthops of an IPv6 route of netdevsim/fib.c. A `struct fib6_info` of the kernel is a
-- number; the argument `mem` says which allocations succeed.
pub mod Undoing
mod Examples
use netdevsim_dkms.Base.{
  ℕ, zero, suc, ◌+◌, ◌-◌, Bool, true, false, not, Option, none, some, List, [], ◌∷◌, ◌++◌, enomem,
  Result, ok, err, Status, success, ◌==◌, if◌then◌else◌,
}

-- What `struct nsim_fib6_rt` has besides its key.
pub record Siblings : Type 0 where
  pub nh_list : List ℕ
  pub nhs : ℕ

-- `nsim_fib6_rt_nh_find`
abbrev pub nh_find : ℕ → List ℕ → Bool
nh_find rt [] = false
nh_find rt (x ∷ xs) = if x == rt then true else nh_find rt xs

abbrev pub nh_unlink : ℕ → List ℕ → List ℕ
nh_unlink rt [] = []
nh_unlink rt (x ∷ xs) = if x == rt then xs else x ∷ nh_unlink rt xs

unfoldable pub nh_add : Bool → ℕ → Siblings → Status × Siblings
nh_add mem rt r =
    if not mem
    then (err enomem, r)
    else (success, record { nh_list = r.nh_list ++ rt ∷ []; nhs = r.nhs + 1 })

unfoldable pub nh_del : ℕ → Siblings → Siblings
nh_del rt r =
    if nh_find rt r.nh_list then record { nh_list = nh_unlink rt r.nh_list; nhs = r.nhs - 1 } else r

-- The loop of `nsim_fib6_rt_create` and `nsim_fib6_rt_append` from the `i`-th nexthop on. If one is not
-- added, those before it are deleted, the last one first.
unfoldable pub nh_add_all : (ℕ → Bool) → ℕ → List ℕ → Siblings → Status × Siblings
nh_add_all mem i [] r = (success, r)
nh_add_all mem i (x ∷ xs) r =
    let (added, r1) = nh_add (mem i) x r in
    let (rest, r2) = nh_add_all mem (suc i) xs r1 in
    elim added [
      | err e ↦ (err e, r1)
      | ok u ↦ elim rest [ err e ↦ (err e, nh_del x r2) | ok v ↦ (success, r2) ]
    ]

-- The loop of `nsim_fib6_rt_remove` and of `nsim_fib6_rt_destroy`.
unfoldable pub nh_del_all : List ℕ → Siblings → Siblings
nh_del_all [] r = r
nh_del_all (x ∷ xs) r = nh_del_all xs (nh_del x r)
