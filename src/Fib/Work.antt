-- ===== src/Fib/Work.antt =====
-- The way of a notification in netdevsim/fib.c: it is checked, counted and queued where it arrives, and
-- two work items process the queue and flush all routes.
pub mod Occupancy
pub mod Flushing
pub mod Scheduling
pub mod History
pub mod Failing
mod Examples
use netdevsim_dkms.Base.{
  ℕ, zero, suc, ◌+◌, ◌-◌, Bool, true, false, not, List, [], ◌∷◌, ◌++◌, enospc, einval, enomem,
  Errno, Result, ok, err, Status, success, if◌then◌else◌,
}
use netdevsim_dkms.Fib.Resources.{FibEntry, PerFib, account}
use netdevsim_dkms.Fib.Routes.{
  Family, inet, inet6, Route, rt4, rt6, Info, v4, v6, Kind, entry_replace, entry_append, entry_del,
  FibEvent, FibData, WorkAnswers, Fen4, Fen6, key_of, account_fib, fib4_event, fib6_event,
}

-- `nsim_fib_event`: a route that is not taken is only marked in the kernel.
unfoldable pub fib_event : WorkAnswers → FibEvent → FibData → FibData
fib_event ans ev s = elim ev.info [
  | v4 f ↦ (fib4_event ans ev.kind f s).1
  | v6 f ↦ (fib6_event ans ev.kind f s).1
]

-- The part of `nsim_fib4_prepare_event` that counts.
unfoldable pub fib4_prepare_event : Kind → FibData → Status × FibData
fib4_prepare_event entry_replace s = account_fib inet true s
fib4_prepare_event entry_append s = (success, s)
fib4_prepare_event entry_del s =
    if s.fail_route_delete then (err einval, s) else (success, (account_fib inet false s).1)

-- `nsim_fib6_prepare_event`, which allocates the array of the route's nexthops first.
unfoldable pub fib6_prepare_event : Bool → Kind → FibData → Status × FibData
fib6_prepare_event false kind s = (err enomem, s)
fib6_prepare_event true entry_replace s = account_fib inet6 true s
fib6_prepare_event true entry_append s = (success, s)
fib6_prepare_event true entry_del s =
    if s.fail_route_delete then (err einval, s) else (success, (account_fib inet6 false s).1)

unfoldable pub prepare_event : Bool → FibEvent → FibData → Status × FibData
prepare_event arr_mem ev s = elim ev.info [
  | v4 f ↦ fib4_prepare_event ev.kind s
  | v6 f ↦ fib6_prepare_event arr_mem ev.kind s
]

-- What a notifier answers: NOTIFY_DONE, or NOTIFY_BAD.
pub data Notify : Type 0 where
  notify_done notify_bad : Notify

-- A deletion that fails schedules a flush.
unfoldable pub refuse : Kind → FibData → Notify × FibData
refuse entry_replace s = (notify_bad, s)
refuse entry_append s = (notify_bad, s)
refuse entry_del s = (notify_bad, record s { flush = true })

-- `nsim_fib_event_schedule_work`; the two flags say whether the event and the array are allocated.
unfoldable pub schedule_work : Bool → Bool → FibEvent → FibData → Notify × FibData
schedule_work mem arr_mem ev s =
    if not mem
    then refuse ev.kind s
    else let (r, s') = prepare_event arr_mem ev s in
      elim r [
        | err e ↦ refuse ev.kind s'
        | ok u ↦ (notify_done, record s' { queue = s'.queue ++ ev ∷ [] })
      ]

-- The loop of `nsim_fib_event_work`; the `i`-th event meets the `i`-th answers.
unfoldable pub process : (ℕ → WorkAnswers) → ℕ → List FibEvent → FibData → FibData
process ans i [] s = s
process ans i (ev ∷ evs) s = process ans (suc i) evs (fib_event (ans i) ev s)

unfoldable pub event_work : (ℕ → WorkAnswers) → FibData → FibData
event_work ans s = process ans 0 s.queue (record s { queue = [] })

-- `nsim_fib_rt_free`, of a route that has left the list.
unfoldable pub rt_free : Route → FibData → FibData
rt_free r s = (account_fib (key_of r).family false s).1

unfoldable pub free_routes : List Route → FibData → FibData
free_routes [] s = record s { routes = [] }
free_routes (r ∷ rs) s = free_routes rs (rt_free r (record s { routes = rs }))

-- `nsim_fib_flush_work`, which processes the queue first.
unfoldable pub flush_work : (ℕ → WorkAnswers) → FibData → FibData
flush_work ans s = let s' = event_work ans (record s { flush = false }) in free_routes s'.routes s'

-- `nsim_fib_dump_inconsistent`
unfoldable pub dump_inconsistent : (ℕ → WorkAnswers) → FibData → FibData
dump_inconsistent ans s =
    let s' = event_work ans s in
    let s2 = free_routes s'.routes s' in
    record s2 {
      ipv4 = record s2.ipv4 { rules = record s2.ipv4.rules { num = 0 } };
      ipv6 = record s2.ipv6 { rules = record s2.ipv6.rules { num = 0 } };
    }

-- `nsim_fib_rule_event`
unfoldable pub rule_event : Family → Bool → FibData → Status × FibData
rule_event inet add s =
    let (r, e) = account s.ipv4.rules add in (r, record s { ipv4 = record s.ipv4 { rules = e } })
rule_event inet6 add s =
    let (r, e) = account s.ipv6.rules add in (r, record s { ipv6 = record s.ipv6 { rules = e } })
