-- ===== src/Fib/Resources.antt =====
-- The occupancy counters of netdevsim/fib.c, each with the limit that devlink sets. The kernel's atomic
-- operations are single steps.
use netdevsim_dkms.Base.{
  ℕ, ◌+◌, ◌-◌, Bool, true, false, enospc, err, Status, success, ◌==◌, if◌then◌else◌,
}

-- `struct nsim_fib_entry`
pub record FibEntry : Type 0 where
  pub max : ℕ
  pub num : ℕ

-- `struct nsim_per_fib_data`
pub record PerFib : Type 0 where
  pub fib : FibEntry
  pub rules : FibEntry

-- `atomic64_add_unless(&entry->num, 1, entry->max)`: whether the counter went up.
abbrev pub add_unless : FibEntry → Bool × FibEntry
add_unless e = if e.num == e.max then (false, e) else (true, record e { num = e.num + 1 })

-- `atomic64_dec_if_positive(&entry->num)`
abbrev pub dec_if_positive : FibEntry → FibEntry
dec_if_positive e = record e { num = e.num - 1 }

-- `nsim_fib_account`, and `nsim_fib_rule_account`, which does the same with a message.
unfoldable pub account : FibEntry → Bool → Status × FibEntry
account e false = (success, dec_if_positive e)
account e true = let (added, e') = add_unless e in if added then (success, e') else (err enospc, e')
