-- ===== src/Fib/Routes/Keys.antt =====
-- The keys of the IPv4 routes that are held, and what the work on an event makes of them.
use netdevsim_dkms.Base.{
  ◌≡◌, refl, Bool, true, false, inl, inr, Option, none, some, List, [], ◌∷◌, arith, ok, Status,
  if◌then◌else◌, Option-cases, Result-cases,
}
use netdevsim_dkms.Fib.Siblings.{Siblings, nh_add_all, nh_del_all}
use netdevsim_dkms.Fib.Routes.{
  inet, inet6, Key, Fen4, Fen6, Route, rt4, rt6, Kind, entry_replace, entry_append, entry_del,
  FibData, WorkAnswers, key_of, same_family, same_key, key4, key6, rt_arr, rt_lookup, rt_set,
  rt_unlink, rt_add, rt_replace, rt_put, rt6_create, rt6_insert, rt6_append, rt6_remove, fib6_event,
}

-- The keys of the IPv4 routes, and the tests and the removal on keys.
unfoldable pub keys4 : List Route → List Key
keys4 [] = []
keys4 (r ∷ rs) = if same_family (key_of r).family inet then key_of r ∷ keys4 rs else keys4 rs

unfoldable pub has_key : Key → List Key → Bool
has_key k [] = false
has_key k (x ∷ xs) = if same_key x k then true else has_key k xs

unfoldable pub drop_key : Key → List Key → List Key
drop_key k [] = []
drop_key k (x ∷ xs) = if same_key x k then xs else x ∷ drop_key k xs

abbrev pub is_found : Option Route → Bool
is_found none = false
is_found (some r) = true

pub has_key-lookup :
    (f : Fen4) (rs : List Route) → has_key (key4 f) (keys4 rs) ≡ is_found (rt_lookup (key4 f) rs)
unfolding keys4 has_key rt_lookup
has_key-lookup f [] = refl
has_key-lookup f (r ∷ rs) = ground (arith, has_key-lookup f rs)

pub keys4-unlink :
    (f : Fen4) (rs : List Route) → keys4 (rt_unlink (key4 f) rs) ≡ drop_key (key4 f) (keys4 rs)
unfolding keys4 drop_key rt_unlink
keys4-unlink f [] = refl
keys4-unlink f (r ∷ rs) = ground (arith, keys4-unlink f rs)

pub keys4-unlink6 : (f : Fen6) (rs : List Route) → keys4 (rt_unlink (key6 f) rs) ≡ keys4 rs
unfolding keys4 rt_unlink
keys4-unlink6 f [] = refl
keys4-unlink6 f (r ∷ rs) = ground (arith, keys4-unlink6 f rs)

pub keys4-set6 :
    (f : Fen6) (k : Key) (v : Siblings) (rs : List Route)
    → k.family ≡ inet6
    → keys4 (rt_set (key6 f) (rt6 k v) rs) ≡ keys4 rs
unfolding keys4 rt_set
keys4-set6 f k v [] h = refl
keys4-set6 f k v (r ∷ rs) h = ground (arith, h, keys4-set6 f k v rs h)

-- What the work on IPv6 routes leaves alone.
pub record IsKept (s' s : FibData) : Type 0 where
  pub keys : keys4 s'.routes ≡ keys4 s.routes
  pub counters : s'.ipv4 ≡ s.ipv4
  pub waiting : s'.queue ≡ s.queue
  pub offload : s'.fail_route_offload ≡ s.fail_route_offload
  pub delete : s'.fail_route_delete ≡ s.fail_route_delete

lookup-family :
    (f : Fen6) (rs : List Route) (k : Key) (r : Siblings)
    → rt_lookup (key6 f) rs ≡ some (rt6 k r)
    → k.family ≡ inet6
unfolding rt_lookup
lookup-family f [] k r h = ground arith
lookup-family f (x ∷ rs) k r h = ground (arith, lookup-family f rs k r)

rt6_remove-IsKept : (f : Fen6) (s : FibData) → IsKept (rt6_remove f s) s
unfolding rt6_remove
rt6_remove-IsKept f s = elim (Option-cases (rt_lookup (key6 f) s.routes)) [
  | inl e ↦ ground (arith, e)
  | inr (rt4 k fi dscp t, e) ↦ ground (arith, e)
  | inr (rt6 k r, e) ↦
      let six = lookup-family f s.routes k r e in
      ground
        (arith, e, keys4-unlink6 f s.routes, keys4-set6 f k (nh_del_all (rt_arr f) r) s.routes six)
]

rt6_append-IsKept : (ans : WorkAnswers) (f : Fen6) (s : FibData) → IsKept (rt6_append ans f s).1 s
unfolding rt6_append
rt6_append-IsKept ans f s = elim (Option-cases (rt_lookup (key6 f) s.routes)) [
  | inl e ↦ ground (arith, e)
  | inr (rt4 k fi dscp t, e) ↦ ground (arith, e)
  | inr (rt6 k r, e) ↦
      let six = lookup-family f s.routes k r e in
      let r' : Siblings = (nh_add_all ans.nh_mem 0 (rt_arr f) r).1 in
      ground (arith, e, keys4-set6 f k r' s.routes six)
]

rt_put6-IsKept :
    (answer : Status) (f : Fen6) (r : Siblings) (s : FibData)
    → IsKept (rt_put answer inet6 (rt6 (key6 f) r) s).1 s
unfolding rt_put rt_add rt_replace keys4
rt_put6-IsKept answer f r s = elim (Result-cases answer) [
  | inl (x, a) ↦ ground (arith, a)
  | inr (u, a) ↦ ground (arith, a, keys4-unlink6 f s.routes)
]

rt6_create-key :
    (ans : WorkAnswers) (f : Fen6) (r : Route)
    → rt6_create ans f ≡ ok r
    → (v : Siblings) × (r ≡ rt6 (key6 f) v)
unfolding rt6_create
rt6_create-key ans f r h =
    ((nh_add_all ans.nh_mem 0 (rt_arr f) (record { nh_list = []; nhs = 0 })).1, ground (arith, h))

rt6_insert-IsKept : (ans : WorkAnswers) (f : Fen6) (s : FibData) → IsKept (rt6_insert ans f s).1 s
unfolding rt6_insert
rt6_insert-IsKept ans f s = elim (Result-cases (rt6_create ans f)) [
  | inl (x, c) ↦ ground (arith, c)
  | inr (r, c) ↦
      let (v, same) = rt6_create-key ans f r c in
      ground (arith, c, same, rt_put6-IsKept ans.table f v s)
]

-- The work on an event of an IPv6 route leaves the IPv4 routes, their counters and the queue.
pub fib6_event-IsKept :
    (ans : WorkAnswers) (kind : Kind) (f : Fen6) (s : FibData)
    → IsKept (fib6_event ans kind f s).1 s
unfolding fib6_event
fib6_event-IsKept ans entry_replace f s = ground (arith, rt6_insert-IsKept ans f s)
fib6_event-IsKept ans entry_append f s = ground (arith, rt6_append-IsKept ans f s)
fib6_event-IsKept ans entry_del f s = ground (arith, rt6_remove-IsKept f s)
