-- ===== src/Fib/Work/Occupancy.antt =====
-- The occupancy of IPv4 routes, as long as nothing is made to fail: between notification and work it
-- is ahead of the routes that are held, and once the queue is empty it is their number.
use netdevsim_dkms.Base.{
  ℕ, suc, ◌+◌, ◌-◌, ◌≡◌, refl, ap, ◌∙◌, ◌≤◌, Bool, true, false, inl, inr, List, [], ◌∷◌, ◌++◌,
  arith, success, length, bit, Option-cases,
}
use netdevsim_dkms.Fib.Resources.{account}
use netdevsim_dkms.Fib.Routes.{
  Key, Fen4, Kind, entry_replace, entry_append, entry_del, Info, v4, v6, FibEvent, FibData,
  WorkAnswers, key4, rt_lookup, rt_add, rt_replace, rt_put, rt4_insert, rt4_remove, fib4_event,
}
use netdevsim_dkms.Fib.Routes.Keys.{
  keys4, has_key, drop_key, has_key-lookup, keys4-unlink, fib6_event-IsKept,
}
use netdevsim_dkms.Fib.Work.{fib_event, process, event_work}

-- What an event makes of the keys of the IPv4 routes, and how much accounting its work drops.
abbrev pub key_event : Kind → Info → List Key → List Key
key_event entry_replace (v4 f) ks = key4 f ∷ drop_key (key4 f) ks
key_event entry_append (v4 f) ks = ks
key_event entry_del (v4 f) ks = drop_key (key4 f) ks
key_event k (v6 f) ks = ks

abbrev pub replaced : Kind → Info → List Key → ℕ
replaced entry_replace (v4 f) ks = bit (has_key (key4 f) ks)
replaced entry_append (v4 f) ks = 0
replaced entry_del (v4 f) ks = 0
replaced k (v6 f) ks = 0

-- The keys that are left when a queue has been processed, and what its work drops in all.
abbrev pub final : List FibEvent → List Key → List Key
final [] ks = ks
final (ev ∷ q) ks = final q (key_event ev.kind ev.info ks)

abbrev pub dropped : List FibEvent → List Key → ℕ
dropped [] ks = 0
dropped (ev ∷ q) ks = replaced ev.kind ev.info ks + dropped q (key_event ev.kind ev.info ks)

-- Work for which memory suffices and that the hash table accepts; the nexthops of IPv6 routes may be
-- short of memory.
abbrev pub calm : (ℕ → ℕ → Bool) → ℕ → WorkAnswers
calm nh i = record { mem = true; nh_mem = nh i; table = success }

-- What the work on an event has done.
record IsDone (kind : Kind) (info : Info) (s' s : FibData) : Type 0 where
  keys : keys4 s'.routes ≡ key_event kind info (keys4 s.routes)
  num : s'.ipv4.fib.num ≡ s.ipv4.fib.num - replaced kind info (keys4 s.routes)
  max : s'.ipv4.fib.max ≡ s.ipv4.fib.max
  waiting : s'.queue ≡ s.queue
  offload : s'.fail_route_offload ≡ s.fail_route_offload
  delete : s'.fail_route_delete ≡ s.fail_route_delete

pub drop_key-absent : (k : Key) (ks : List Key) → has_key k ks ≡ false → drop_key k ks ≡ ks
unfolding has_key drop_key
drop_key-absent k [] h = refl
drop_key-absent k (x ∷ ks) h = ground (arith, drop_key-absent k ks)

pub length-drop_key :
    (k : Key) (ks : List Key) → has_key k ks ≡ true → length ks ≡ suc (length (drop_key k ks))
unfolding has_key drop_key
length-drop_key k [] h = ground arith
length-drop_key k (x ∷ ks) h = ground (arith, length-drop_key k ks)

rt4_insert-IsDone :
    (nh : ℕ → Bool) (f : Fen4) (s : FibData)
    → s.fail_route_offload ≡ false
    → IsDone entry_replace
        (v4 f)
        (rt4_insert (record { mem = true; nh_mem = nh; table = success }) f s).1
        s
unfolding rt4_insert rt_put rt_add rt_replace account keys4
rt4_insert-IsDone nh f s calm_now = elim (Option-cases (rt_lookup (key4 f) s.routes)) [
  | inl e ↦
      let absent = has_key-lookup f s.routes in
      ground (arith, calm_now, e, absent, drop_key-absent (key4 f) (keys4 s.routes))
  | inr (r, e) ↦
      let present = has_key-lookup f s.routes in
      ground (arith, calm_now, e, present, keys4-unlink f s.routes)
]

rt4_remove-IsDone : (f : Fen4) (s : FibData) → IsDone entry_del (v4 f) (rt4_remove f s) s
unfolding rt4_remove
rt4_remove-IsDone f s = elim (Option-cases (rt_lookup (key4 f) s.routes)) [
  | inl e ↦
      let absent = has_key-lookup f s.routes in
      ground (arith, e, absent, drop_key-absent (key4 f) (keys4 s.routes))
  | inr (r, e) ↦ ground (arith, e, keys4-unlink f s.routes)
]

fib_event-IsDone :
    (nh : ℕ → ℕ → Bool) (i : ℕ) (kind : Kind) (info : Info) (s : FibData)
    → s.fail_route_offload ≡ false
    → IsDone kind info (fib_event (calm nh i) (record { kind = kind; info = info }) s) s
unfolding fib_event fib4_event
fib_event-IsDone nh i entry_replace (v4 f) s h = rt4_insert-IsDone (nh i) f s h
fib_event-IsDone nh i entry_append (v4 f) s h = ground arith
fib_event-IsDone nh i entry_del (v4 f) s h = rt4_remove-IsDone f s
fib_event-IsDone nh i kind (v6 f) s h =
    let kept = fib6_event-IsKept (calm nh i) kind f s in ground (arith, kept)

-- The state when a queue has been processed.
record IsProcessed (q : List FibEvent) (s' s : FibData) : Type 0 where
  keys : keys4 s'.routes ≡ final q (keys4 s.routes)
  num : s'.ipv4.fib.num ≡ s.ipv4.fib.num - dropped q (keys4 s.routes)
  max : s'.ipv4.fib.max ≡ s.ipv4.fib.max
  waiting : s'.queue ≡ s.queue
  offload : s'.fail_route_offload ≡ s.fail_route_offload
  delete : s'.fail_route_delete ≡ s.fail_route_delete

process-IsProcessed :
    (nh : ℕ → ℕ → Bool) (i : ℕ) (q : List FibEvent) (s : FibData)
    → s.fail_route_offload ≡ false
    → IsProcessed q (process (calm nh) i q s) s
unfolding process
process-IsProcessed nh i [] s h = ground arith
process-IsProcessed nh i (ev ∷ q) s h =
    let s1 : FibData = fib_event (calm nh i) ev s in
    let one = fib_event-IsDone nh i ev.kind ev.info s h in
    let rest = process-IsProcessed nh (suc i) q s1 (one.offload ∙ h) in
    record {
      keys = rest.keys ∙ ap (final q) one.keys;
      num = rest.num ∙ ground (arith, one.num, ap (dropped q) one.keys);
      max = rest.max ∙ one.max;
      waiting = rest.waiting ∙ one.waiting;
      offload = rest.offload ∙ one.offload;
      delete = rest.delete ∙ one.delete;
    }

-- The counter is the number of routes there will be, and what the queue has still to drop; nothing is
-- made to fail.
pub record IsBalanced (s : FibData) : Type 0 where
  pub balanced :
      s.ipv4.fib.num ≡ length (final s.queue (keys4 s.routes)) + dropped s.queue (keys4 s.routes)
  pub bounded : s.ipv4.fib.num ≤ s.ipv4.fib.max
  pub offload : s.fail_route_offload ≡ false
  pub delete : s.fail_route_delete ≡ false

-- On a balanced state the work leaves an empty queue and as many routes as the counter says.
pub event_work-IsBalanced :
    (nh : ℕ → ℕ → Bool) (s : FibData)
    → IsBalanced s
    → let s' = event_work (calm nh) s in
      IsBalanced s'
      × (s'.ipv4.fib.num ≡ length (keys4 s'.routes))
      × (s'.ipv4.fib.max ≡ s.ipv4.fib.max)
      × (s'.queue ≡ [])
unfolding event_work
event_work-IsBalanced nh s v =
    let s0 : FibData = record s { queue = [] } in
    let p = process-IsProcessed nh 0 s.queue s0 v.offload in
    let s' : FibData = process (calm nh) 0 s.queue s0 in
    let count : s'.ipv4.fib.num ≡ length (keys4 s'.routes) =
      ground (arith, p.num, p.keys, v.balanced) in
    let idle : s'.queue ≡ [] = p.waiting in
    let bounded : s'.ipv4.fib.num ≤ s'.ipv4.fib.max = ground (arith, p.num, p.max, v.bounded) in
    (
      record {
        balanced = ground (arith, count, idle);
        bounded = bounded;
        offload = p.offload ∙ v.offload;
        delete = p.delete ∙ v.delete;
      },
      count,
      p.max,
      idle,
    )

pub final-append :
    (q : List FibEvent) (ev : FibEvent) (ks : List Key)
    → (final (q ++ ev ∷ []) ks ≡ key_event ev.kind ev.info (final q ks))
      × (dropped (q ++ ev ∷ []) ks ≡ dropped q ks + replaced ev.kind ev.info (final q ks))
final-append [] ev ks = (refl, omega arith)
final-append (x ∷ q) ev ks =
    let (a, b) = final-append q ev (key_event x.kind x.info ks) in (a, omega (arith, b))
