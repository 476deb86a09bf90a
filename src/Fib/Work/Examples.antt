-- ===== src/Fib/Work/Examples.antt =====
-- Concrete runs of the notifications and the work of netdevsim/fib.c.
use netdevsim_dkms.Base.{ℕ, ◌≡◌, refl, ◌≤◌, Bool, true, none, some, [], ◌∷◌, map, arith, length}
use netdevsim_dkms.Fib.Resources.{FibEntry, account}
use netdevsim_dkms.Fib.Siblings.{Siblings}
use netdevsim_dkms.Fib.Routes.{
  Fen4, Fen6, rt6, v4, v6, entry_replace, entry_del, FibEvent, FibData, WorkAnswers, key_of, key4,
  key6, rt_lookup, rt_add, rt_put, rt4_insert, fib4_event,
}
use netdevsim_dkms.Fib.Routes.Keys.{keys4, has_key}
use netdevsim_dkms.Fib.Work.{
  notify_bad, schedule_work, event_work, prepare_event, fib4_prepare_event, refuse, process,
  fib_event,
}
use netdevsim_dkms.Fib.Work.Occupancy.{calm, final}
use netdevsim_dkms.Fib.Work.History.{
  empty, Reachable, booted, notified, worked, event_work-Reachable,
}
use netdevsim_dkms.Fib.Work.Scheduling.{is_held}
use netdevsim_dkms.Fib.Work.Failing.{
  notify, add_fail_delete, add_fail_delete-num, notify-delete_nexthops,
}

abbrev unlimited : FibEntry
unlimited = record { max = 1000; num = 0 }

abbrev route_a : Fen4
route_a = record { dst = 10; dst_len = 24; tb_id = 254; fi = 1; dscp = 0; rt_type = 1 }

abbrev route_b : Fen4
route_b = record { dst = 11; dst_len = 24; tb_id = 254; fi = 2; dscp = 0; rt_type = 1 }

abbrev add : Fen4 → FibEvent
add f = record { kind = entry_replace; info = v4 f }

abbrev remove : Fen4 → FibEvent
remove f = record { kind = entry_del; info = v4 f }

abbrev enough : ℕ → ℕ → Bool
enough i j = true

abbrev start : FibData
start = empty unlimited unlimited unlimited 2

-- Two routes are added and the first one is replaced, before any work; then the second one is deleted.
abbrev one_added : FibData
one_added = (schedule_work true true (add route_a) start).1

abbrev two_added : FibData
two_added = (schedule_work true true (add route_b) one_added).1

abbrev worked_on : FibData
worked_on = event_work (calm enough) two_added

abbrev one_removed : FibData
one_removed = (schedule_work true true (remove route_b) worked_on).1

third_refused :
    (schedule_work true true (add (record route_a { dst = 12 })) two_added).0 ≡ notify_bad
unfolding schedule_work prepare_event fib4_prepare_event account refuse
third_refused = refl

is_still_held :
    is_held entry_del (v4 route_b) (final worked_on.queue (keys4 worked_on.routes)) ≡ true
unfolding event_work process schedule_work prepare_event fib4_prepare_event account fib_event
    fib4_event rt4_insert rt_put rt_add rt_lookup keys4 has_key
is_still_held = refl

one_removed-Reachable : Reachable 2 one_removed
one_removed-Reachable = notified true true (remove route_b) is_still_held (
    worked enough (
      notified true true (add route_b) refl
        (notified true true (add route_a) refl (booted unlimited unlimited unlimited))))

event_work-Reachable_example :
    let s' = event_work (calm enough) one_removed in
    (s'.queue ≡ []) × (s'.ipv4.fib.num ≡ length (keys4 s'.routes)) × (s'.ipv4.fib.num ≤ 2)
event_work-Reachable_example = event_work-Reachable 2 enough one_removed one_removed-Reachable

abbrev answers : ℕ → WorkAnswers
answers = calm enough

no_routes : rt_lookup (key4 route_a) start.routes ≡ none
unfolding rt_lookup
no_routes = refl

abbrev roomy : FibData
roomy = empty unlimited unlimited unlimited 5

add_fail_delete-num_example :
    ((add_fail_delete answers route_a roomy).routes ≡ [])
    × ((add_fail_delete answers route_a roomy).ipv4.fib.num ≡ 1)
add_fail_delete-num_example =
    add_fail_delete-num answers route_a roomy refl refl refl (omega arith) no_routes

-- An IPv6 route with two nexthops, one of which is deleted.
abbrev multipath : Siblings
multipath = record { nh_list = 30 ∷ 31 ∷ []; nhs = 2 }

abbrev one_path : Fen6
one_path = record { dst = 40; plen = 64; tb_id = 254; src_plen = 0; rt = 30; siblings = [] }

abbrev with_multipath : FibData
with_multipath = record roomy {
  ipv6 = record { fib = record { max = 5; num = 1 }; rules = unlimited };
  routes = rt6 (key6 one_path) multipath ∷ [];
}

multipath_held :
    rt_lookup (key6 one_path) with_multipath.routes ≡ some (rt6 (key6 one_path) multipath)
unfolding rt_lookup
multipath_held = refl

notify-delete_nexthops_example :
    let s' = notify answers (record { kind = entry_del; info = v6 one_path }) with_multipath in
    (map key_of s'.routes ≡ map key_of with_multipath.routes) × (s'.ipv6.fib.num ≡ 0)
notify-delete_nexthops_example =
    notify-delete_nexthops answers one_path (key6 one_path) multipath with_multipath refl refl refl
      multipath_held (omega arith)
