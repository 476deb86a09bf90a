-- ===== src/Fib/Nexthops/Examples.antt =====
-- Concrete runs of the nexthops of netdevsim/fib.c.
use netdevsim_dkms.Base.{◌≡◌, refl, ◌⊎◌, true, false, List, [], ◌∷◌, arith, success, err, enospc}
use netdevsim_dkms.Fib.Resources.{FibEntry}
use netdevsim_dkms.Fib.Nexthops.{
  Nexthops, single, group, res_table, Answers, Event, replace_event, del_event, account, event_nb,
  nexthop_create, nexthop_insert, lookup, nexthop_replace, nexthop_add, add_entries, replace,
}
use netdevsim_dkms.Fib.Nexthops.Counting.{account_all, account-account_all}
use netdevsim_dkms.Fib.Nexthops.Events.{IsCounted, event_nb-IsSound}

abbrev five_left : FibEntry
five_left = record { max = 8; num = 3 }

account-account_all_example : account 6 true five_left ≡ account_all 6 five_left
account-account_all_example = account-account_all 6 five_left (omega arith)

abbrev fine : Answers
fine = record { mem = true; table = success }

-- A nexthop, and a group with two members that occupies five entries.
abbrev two : Nexthops
two = record {
  entry = record { max = 8; num = 6 };
  table =
      record { id = 7; occ = 5; is_resilient = false }
      ∷ record { id = 3; occ = 1; is_resilient = false }
      ∷ [];
  fail_res_group_replace = true;
  fail_bucket_replace = false;
}

two-IsCounted : IsCounted two
two-IsCounted = record { counted = refl; bounded = omega arith }

replaced_group : (event_nb (replace_event fine 7 (group (2 ∷ []))) two).1.entry.num ≡ 3
unfolding event_nb nexthop_insert nexthop_create lookup nexthop_replace account add_entries replace
replaced_group = refl

full : (event_nb (replace_event fine 9 (res_table 4)) two).0 ≡ err enospc
unfolding event_nb nexthop_insert nexthop_create lookup nexthop_add account add_entries
full = refl

event_nb-IsSound_example :
    IsCounted (event_nb (replace_event fine 7 (group (2 ∷ []))) two).1
    × ((event_nb (replace_event fine 7 (group (2 ∷ []))) two).1.entry.max ≡ 8)
    × (((event_nb (replace_event fine 7 (group (2 ∷ []))) two).0 ≡ success)
        ⊎ ((event_nb (replace_event fine 7 (group (2 ∷ []))) two).1 ≡ two))
event_nb-IsSound_example =
    event_nb-IsSound (replace_event fine 7 (group (2 ∷ []))) two two-IsCounted

abbrev events : List Event
events =
    replace_event fine 3 single
    ∷ replace_event fine 7 (group (2 ∷ 3 ∷ []))
    ∷ del_event 3
    ∷ replace_event fine 9 (res_table 4)
    ∷ []
