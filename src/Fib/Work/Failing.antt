-- ===== src/Fib/Work/Failing.antt =====
-- Where the occupancy of netdevsim/fib.c and the routes that are held part.
use netdevsim_dkms.Base.{
  ℕ, ◌+◌, ◌-◌, ◌≡◌, refl, ◌<◌, Bool, true, false, none, some, List, [], ◌∷◌, map, arith, length,
  success,
}
use netdevsim_dkms.Fib.Resources.{account}
use netdevsim_dkms.Fib.Siblings.{Siblings, nh_del_all}
use netdevsim_dkms.Fib.Routes.{
  Key, Fen4, Fen6, Route, rt4, rt6, entry_replace, entry_del, v4, v6, FibEvent, FibData,
  WorkAnswers, key_of, key4, key6, rt_arr, rt_lookup, rt_set, rt_add, rt_put, rt4_insert,
  rt4_remove, rt_unlink, fib4_event, rt6_remove, fib6_event,
}
use netdevsim_dkms.Fib.Work.{
  fib_event, fib4_prepare_event, fib6_prepare_event, prepare_event, schedule_work, process,
  event_work,
}

-- A notification that is queued, and the work that follows at once.
unfoldable pub notify : (ℕ → WorkAnswers) → FibEvent → FibData → FibData
notify ans ev s = event_work ans (schedule_work true true ev s).1

-- An IPv4 route is added, its replacement fails, and the kernel deletes it.
abbrev pub add_fail_delete : (ℕ → WorkAnswers) → Fen4 → FibData → FibData
add_fail_delete ans f s =
    let added =
      notify (λ i. record { mem = true; nh_mem = λ j. true; table = success })
        (record { kind = entry_replace; info = v4 f }) s in
    let failed =
      notify ans (record { kind = entry_replace; info = v4 f })
        (record added { fail_route_offload = true }) in
    notify ans (record { kind = entry_del; info = v4 f }) failed

-- The state with another IPv4 occupancy, other routes and the flag.
abbrev changed : ℕ → List Route → Bool → FibData → FibData
changed n rs failing s = record s {
  ipv4 = record s.ipv4 { fib = record s.ipv4.fib { num = n } };
  routes = rs;
  queue = [];
  fail_route_offload = failing;
}

notify-added :
    (f : Fen4) (s : FibData)
    → s.queue ≡ []
    → s.fail_route_offload ≡ false
    → s.ipv4.fib.num < s.ipv4.fib.max
    → rt_lookup (key4 f) s.routes ≡ none
    → notify
        (λ i. record { mem = true; nh_mem = λ j. true; table = success })
        (record { kind = entry_replace; info = v4 f })
        s
      ≡ changed (s.ipv4.fib.num + 1) (rt4 (key4 f) f.fi f.dscp f.rt_type ∷ s.routes) false s
unfolding notify event_work process schedule_work prepare_event fib4_prepare_event account fib_event
    fib4_event rt4_insert rt_put rt_add
notify-added f s idle working below fresh = ground (arith, idle, working, below, fresh)

notify-failed :
    (ans : ℕ → WorkAnswers) (f : Fen4) (s : FibData)
    → s.queue ≡ []
    → s.fail_route_offload ≡ true
    → s.ipv4.fib.num < s.ipv4.fib.max
    → notify ans (record { kind = entry_replace; info = v4 f }) s
      ≡ changed (s.ipv4.fib.num + 1) s.routes true s
unfolding notify event_work process schedule_work prepare_event fib4_prepare_event account fib_event
    fib4_event rt4_insert
notify-failed ans f s idle failing below = ground (arith, idle, failing, below)

notify-deleted :
    (ans : ℕ → WorkAnswers) (f : Fen4) (fi dscp t : ℕ) (rs : List Route) (s : FibData)
    → s.queue ≡ []
    → s.fail_route_offload ≡ true
    → s.fail_route_delete ≡ false
    → s.routes ≡ rt4 (key4 f) fi dscp t ∷ rs
    → notify ans (record { kind = entry_del; info = v4 f }) s
      ≡ changed (s.ipv4.fib.num - 1) rs true s
unfolding notify event_work process schedule_work prepare_event fib4_prepare_event account fib_event
    fib4_event rt4_remove rt_lookup rt_unlink
notify-deleted ans f fi dscp t rs s idle failing working held =
    ground (arith, idle, failing, working, held)

-- When an IPv4 route is added, its replacement cannot be offloaded and the kernel then deletes the
-- route, the routes are what they were before, and the occupancy is one above what it was.
pub add_fail_delete-num :
    (ans : ℕ → WorkAnswers) (f : Fen4) (s : FibData)
    → s.queue ≡ []
    → s.fail_route_offload ≡ false
    → s.fail_route_delete ≡ false
    → s.ipv4.fib.num + 1 < s.ipv4.fib.max
    → rt_lookup (key4 f) s.routes ≡ none
    → ((add_fail_delete ans f s).routes ≡ s.routes)
      × ((add_fail_delete ans f s).ipv4.fib.num ≡ s.ipv4.fib.num + 1)
add_fail_delete-num ans f s idle working deleting below fresh =
    let rs : List Route = rt4 (key4 f) f.fi f.dscp f.rt_type ∷ s.routes in
    let s1 : FibData = changed (s.ipv4.fib.num + 1) rs true s in
    let s2 : FibData = changed (s.ipv4.fib.num + 2) rs true s in
    let one = notify-added f s idle working (omega (arith, below)) fresh in
    let two = notify-failed ans f s1 refl refl below in
    let three = notify-deleted ans f f.fi f.dscp f.rt_type s.routes s2 refl refl deleting refl in
    ground (arith, one, two, three)

map-rt_set :
    (k k' : Key) (r v : Siblings) (rs : List Route)
    → rt_lookup k rs ≡ some (rt6 k' r)
    → map key_of (rt_set k (rt6 k' v) rs) ≡ map key_of rs
unfolding rt_lookup rt_set
map-rt_set k k' r v [] h = refl
map-rt_set k k' r v (x ∷ rs) h = ground (arith, h, map-rt_set k k' r v rs)

-- When an IPv6 route loses some of its nexthops by a deletion that names fewer than it has, the route
-- stays, with all others, and the occupancy of IPv6 drops by one all the same.
pub notify-delete_nexthops :
    (ans : ℕ → WorkAnswers) (f : Fen6) (k : Key) (r : Siblings) (s : FibData)
    → s.queue ≡ []
    → s.fail_route_delete ≡ false
    → f.src_plen ≡ 0
    → rt_lookup (key6 f) s.routes ≡ some (rt6 k r)
    → length (rt_arr f) < r.nhs
    → let s' = notify ans (record { kind = entry_del; info = v6 f }) s in
      (map key_of s'.routes ≡ map key_of s.routes) × (s'.ipv6.fib.num ≡ s.ipv6.fib.num - 1)
unfolding notify event_work process schedule_work prepare_event fib6_prepare_event account fib_event
    fib6_event rt6_remove
notify-delete_nexthops ans f k r s idle working whole held fewer = ground (
  arith,
  idle,
  working,
  whole,
  held,
  fewer,
  map-rt_set (key6 f) k r (nh_del_all (rt_arr f) r) s.routes held,
)
