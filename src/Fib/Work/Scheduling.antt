-- ===== src/Fib/Work/Scheduling.antt =====
-- What a notification makes of the occupancy of IPv4 routes of netdevsim/fib.c.
use netdevsim_dkms.Base.{
  ℕ, ◌+◌, ◌-◌, ◌≡◌, refl, ◌∙◌, ◌≤◌, Bool, true, false, ◌⊎◌, inl, inr, List, [], ◌∷◌, ◌++◌, arith,
  Errno, err, success, length, Bool-cases,
}
use netdevsim_dkms.Fib.Resources.{account}
use netdevsim_dkms.Fib.Routes.{
  Key, Kind, entry_replace, entry_append, entry_del, Info, v4, v6, Fen4, Fen6, FibEvent, FibData,
  key4,
}
use netdevsim_dkms.Fib.Routes.Keys.{keys4, has_key}
use netdevsim_dkms.Fib.Work.{
  fib4_prepare_event, fib6_prepare_event, prepare_event, refuse, schedule_work,
}
use netdevsim_dkms.Fib.Work.Occupancy.{
  key_event, replaced, final, dropped, drop_key-absent, length-drop_key, IsBalanced, final-append,
}

-- The state when an event has been queued.
abbrev queued : FibEvent → FibData → FibData
queued ev s = record s { queue = s.queue ++ ev ∷ [] }

-- What a notification leaves when it is counted and queued, or refused.
abbrev pub IsScheduled : FibData → FibData → Type 0
IsScheduled s' s = IsBalanced s' × (s'.ipv4.fib.max ≡ s.ipv4.fib.max)

refuse-IsScheduled : (kind : Kind) (s : FibData) → IsBalanced s → IsScheduled (refuse kind s).1 s
unfolding refuse
refuse-IsScheduled entry_replace s v = (v, refl)
refuse-IsScheduled entry_append s v = (v, refl)
refuse-IsScheduled entry_del s v = (
  record { balanced = v.balanced; bounded = v.bounded; offload = v.offload; delete = v.delete },
  refl,
)

-- What the notification of an event makes of the counter.
abbrev counted : Kind → Info → ℕ → ℕ
counted entry_replace (v4 f) n = n + 1
counted entry_append (v4 f) n = n
counted entry_del (v4 f) n = n - 1
counted k (v6 f) n = n

-- The kernel deletes an IPv4 route only after it has notified it: it is held, or will be when the queue
-- has been processed.
abbrev pub is_held : Kind → Info → List Key → Bool
is_held entry_del (v4 f) ks = has_key (key4 f) ks
is_held entry_replace (v4 f) ks = true
is_held entry_append (v4 f) ks = true
is_held k (v6 f) ks = true

counted-balanced :
    (kind : Kind) (info : Info) (ks : List Key) (n d : ℕ)
    → n ≡ length ks + d
    → is_held kind info ks ≡ true
    → counted kind info n ≡ length (key_event kind info ks) + (d + replaced kind info ks)
counted-balanced entry_replace (v4 f) ks n d e h = elim (Bool-cases (has_key (key4 f) ks)) [
  | inl held ↦ ground (arith, e, held, length-drop_key (key4 f) ks held)
  | inr absent ↦ ground (arith, e, absent, drop_key-absent (key4 f) ks absent)
]
counted-balanced entry_append (v4 f) ks n d e h = omega (arith, e)
counted-balanced entry_del (v4 f) ks n d e h = omega (arith, e, length-drop_key (key4 f) ks h)
counted-balanced k (v6 f) ks n d e h = omega (arith, e)

-- What the part of the notification before the queue leaves.
record IsPrepared (kind : Kind) (info : Info) (s' s : FibData) : Type 0 where
  num : s'.ipv4.fib.num ≡ counted kind info s.ipv4.fib.num
  bounded : s'.ipv4.fib.num ≤ s'.ipv4.fib.max
  max : s'.ipv4.fib.max ≡ s.ipv4.fib.max
  routes : s'.routes ≡ s.routes
  waiting : s'.queue ≡ s.queue
  offload : s'.fail_route_offload ≡ s.fail_route_offload
  delete : s'.fail_route_delete ≡ s.fail_route_delete

fib4_prepare_event-cases :
    (kind : Kind) (f : Fen4) (s : FibData)
    → IsBalanced s
    → let (r, s') = fib4_prepare_event kind s in
      ((r ≡ success) × IsPrepared kind (v4 f) s' s) ⊎ ((e : Errno) × (r ≡ err e) × (s' ≡ s))
unfolding fib4_prepare_event account
fib4_prepare_event-cases entry_replace f s v = ground (arith, v)
fib4_prepare_event-cases entry_append f s v = ground (arith, v)
fib4_prepare_event-cases entry_del f s v = ground (arith, v)

fib6_prepare_event-cases :
    (arr_mem : Bool) (kind : Kind) (f : Fen6) (s : FibData)
    → IsBalanced s
    → let (r, s') = fib6_prepare_event arr_mem kind s in
      ((r ≡ success) × IsPrepared kind (v6 f) s' s) ⊎ ((e : Errno) × (r ≡ err e) × (s' ≡ s))
unfolding fib6_prepare_event account
fib6_prepare_event-cases false kind f s v = ground (arith, v)
fib6_prepare_event-cases true entry_replace f s v = ground (arith, v)
fib6_prepare_event-cases true entry_append f s v = ground (arith, v)
fib6_prepare_event-cases true entry_del f s v = ground (arith, v)

queued-IsBalanced :
    (ev : FibEvent) (s' s : FibData)
    → IsBalanced s
    → is_held ev.kind ev.info (final s.queue (keys4 s.routes)) ≡ true
    → IsPrepared ev.kind ev.info s' s
    → IsBalanced (queued ev s')
queued-IsBalanced ev s' s v h p =
    let ks : List Key = keys4 s.routes in
    let left : List Key = final s.queue ks in
    let (a, b) = final-append s.queue ev ks in
    let count =
      counted-balanced ev.kind ev.info left s.ipv4.fib.num (dropped s.queue ks) v.balanced h in
    record {
      balanced = ground (arith, p.num, count, a, b, p.waiting, p.routes);
      bounded = p.bounded;
      offload = p.offload ∙ v.offload;
      delete = p.delete ∙ v.delete;
    }

prepare_event-cases :
    (arr_mem : Bool) (kind : Kind) (info : Info) (s : FibData)
    → IsBalanced s
    → let (r, s') = prepare_event arr_mem (record { kind = kind; info = info }) s in
      ((r ≡ success) × IsPrepared kind info s' s) ⊎ ((e : Errno) × (r ≡ err e) × (s' ≡ s))
unfolding prepare_event
prepare_event-cases arr_mem kind (v4 f) s v = fib4_prepare_event-cases kind f s v
prepare_event-cases arr_mem kind (v6 f) s v = fib6_prepare_event-cases arr_mem kind f s v

pub schedule_work-IsScheduled :
    (mem arr_mem : Bool) (ev : FibEvent) (s : FibData)
    → IsBalanced s
    → is_held ev.kind ev.info (final s.queue (keys4 s.routes)) ≡ true
    → IsScheduled (schedule_work mem arr_mem ev s).1 s
unfolding schedule_work
schedule_work-IsScheduled false arr_mem ev s v h = refuse-IsScheduled ev.kind s v
schedule_work-IsScheduled true arr_mem ev s v h =
    let s' : FibData = (prepare_event arr_mem ev s).1 in
    elim (prepare_event-cases arr_mem ev.kind ev.info s v) [
      | inl (r, p) ↦ ground (arith, r, queued-IsBalanced ev s' s v h p, p.max)
      | inr (e, r, same) ↦ ground (arith, r, same, refuse-IsScheduled ev.kind s v)
    ]
