-- ===== src/Fib/Work/History.antt =====
-- The occupancy of IPv4 routes in the course of notifications, work and flushes of netdevsim/fib.c.
use netdevsim_dkms.Base.{ℕ, ◌≡◌, ◌∙◌, ◌≤◌, Bool, true, false, [], arith, length}
use netdevsim_dkms.Fib.Resources.{FibEntry}
use netdevsim_dkms.Fib.Routes.{FibEvent, FibData}
use netdevsim_dkms.Fib.Routes.Keys.{keys4}
use netdevsim_dkms.Fib.Work.{schedule_work, event_work, free_routes, flush_work}
use netdevsim_dkms.Fib.Work.Occupancy.{calm, final, IsBalanced, event_work-IsBalanced}
use netdevsim_dkms.Fib.Work.Flushing.{free_routes-IsFreed}
use netdevsim_dkms.Fib.Work.Scheduling.{is_held, schedule_work-IsScheduled}

-- The state without routes, with a limit on each counter.
abbrev pub empty : FibEntry → FibEntry → FibEntry → ℕ → FibData
empty rules fib6 rules6 max = record {
  ipv4 = record { fib = record { max = max; num = 0 }; rules = rules };
  ipv6 = record { fib = fib6; rules = rules6 };
  routes = [];
  queue = [];
  flush = false;
  fail_route_offload = false;
  fail_route_delete = false;
}

-- The states that notifications, with or without memory, work and flushes lead to under a limit of IPv4
-- routes. An IPv4 route is deleted only while it is held, memory suffices for the work, and nothing is
-- made to fail.
pub data Reachable (max : ℕ) : FibData → Type 0 where
  booted : (rules fib6 rules6 : FibEntry) → Reachable max (empty rules fib6 rules6 max)
  notified :
      {s : FibData} (mem arr_mem : Bool) (ev : FibEvent)
      → is_held ev.kind ev.info (final s.queue (keys4 s.routes)) ≡ true
      → Reachable max s
      → Reachable max (schedule_work mem arr_mem ev s).1
  worked :
      {s : FibData} (nh : ℕ → ℕ → Bool) → Reachable max s → Reachable max (event_work (calm nh) s)
  flushed :
      {s : FibData} (nh : ℕ → ℕ → Bool) → Reachable max s → Reachable max (flush_work (calm nh) s)

flush_work-IsBalanced :
    (nh : ℕ → ℕ → Bool) (s : FibData)
    → IsBalanced s
    → let s' = flush_work (calm nh) s in
      IsBalanced s' × (s'.ipv4.fib.num ≡ 0) × (s'.ipv4.fib.max ≡ s.ipv4.fib.max) × (s'.routes ≡ [])
unfolding flush_work keys4
flush_work-IsBalanced nh s v =
    let s0 : FibData = record s { flush = false } in
    let v0 : IsBalanced s0 = record {
      balanced = v.balanced;
      bounded = v.bounded;
      offload = v.offload;
      delete = v.delete;
    } in
    let (w, count, max, idle) = event_work-IsBalanced nh s0 v0 in
    let s1 : FibData = event_work (calm nh) s0 in
    let freed = free_routes-IsFreed s1.routes s1 in
    let none_left : (free_routes s1.routes s1).ipv4.fib.num ≡ 0 =
      ground (arith, freed.num, count) in
    (
      record {
        balanced = ground (arith, none_left, freed.waiting, idle, freed.routes);
        bounded = omega (arith, none_left);
        offload = freed.offload ∙ w.offload;
        delete = freed.delete ∙ w.delete;
      },
      none_left,
      freed.max ∙ max,
      freed.routes,
    )

Reachable-IsBalanced :
    (max : ℕ) (s : FibData) → Reachable max s → IsBalanced s × (s.ipv4.fib.max ≡ max)
unfolding keys4
Reachable-IsBalanced max s (booted rules fib6 rules6) = ground arith
Reachable-IsBalanced max s (notified {s = s0} mem arr_mem ev held r) =
    let (v, m) = Reachable-IsBalanced max s0 r in
    let (w, same) = schedule_work-IsScheduled mem arr_mem ev s0 v held in (w, same ∙ m)
Reachable-IsBalanced max s (worked {s = s0} nh r) =
    let (v, m) = Reachable-IsBalanced max s0 r in
    let w = event_work-IsBalanced nh s0 v in (w.0, w.2 ∙ m)
Reachable-IsBalanced max s (flushed {s = s0} nh r) =
    let (v, m) = Reachable-IsBalanced max s0 r in
    let w = flush_work-IsBalanced nh s0 v in (w.0, w.2 ∙ m)

-- When IPv4 routes are deleted only while they are held, memory suffices for the work and nothing is
-- made to fail, then after any history of notifications, work and flushes the work that processes the
-- queue leaves an empty queue and an IPv4 occupancy that is the number of the IPv4 routes that are held
-- and not above the limit.
pub event_work-Reachable :
    (max : ℕ) (nh : ℕ → ℕ → Bool) (s : FibData)
    → Reachable max s
    → let s' = event_work (calm nh) s in
      (s'.queue ≡ []) × (s'.ipv4.fib.num ≡ length (keys4 s'.routes)) × (s'.ipv4.fib.num ≤ max)
event_work-Reachable max nh s r =
    let (v, m) = Reachable-IsBalanced max s r in
    let (w, count, same, idle) = event_work-IsBalanced nh s v in
    (idle, count, omega (arith, w.bounded, same, m))

-- From every reachable state the flush leaves no route and brings the IPv4 occupancy to 0.
pub flush_work-Reachable :
    (max : ℕ) (nh : ℕ → ℕ → Bool) (s : FibData)
    → Reachable max s
    → ((flush_work (calm nh) s).routes ≡ []) × ((flush_work (calm nh) s).ipv4.fib.num ≡ 0)
flush_work-Reachable max nh s r =
    let w = flush_work-IsBalanced nh s (Reachable-IsBalanced max s r).0 in (w.3, w.1)
