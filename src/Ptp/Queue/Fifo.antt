-- ===== src/Ptp/Queue/Fifo.antt =====
-- A timestamp queue is a FIFO of 127 entries that loses its oldest entry when it is full.
use netdevsim_dkms.Base.{
  ℕ, zero, suc, ◌≡◌, refl, ◌∙◌, ◌≤◌, ◌<◌, List, [], ◌∷◌, ◌++◌, inl, inr, arith, ◌==◌, if◌then◌else◌,
  length, get_or, set, take, drop, length-set, Bool-cases,
}
use netdevsim_dkms.Ptp.Queue.{
  ExttsEvent, Queue, no_event, next, queue_cnt, queue_free, enqueue, read_events,
}
use netdevsim_dkms.Ptp.Queue.Cursor.{
  IsValid, items, contents, length-items, items-append, queue_cnt-lt, queue_cnt-tail,
  queue_cnt-both, queue_cnt-head, tail_of_head,
}

-- What the queue promises: the new entry at the end, the oldest dropped if there are 127.
unfoldable pub push : ExttsEvent → List ExttsEvent → List ExttsEvent
push e xs = if length xs == 127 then drop 1 xs ++ e ∷ [] else xs ++ e ∷ []

pub length-contents : (q : Queue) → length (contents q) ≡ queue_cnt q
unfolding contents
length-contents q = length-items q.buf q.head (queue_cnt q)

pub enqueue-IsValid : (e : ExttsEvent) (q : Queue) → IsValid q → IsValid (enqueue e q)
unfolding enqueue
enqueue-IsValid e q v =
    let len : length (set q.buf q.tail e) ≡ 128 = length-set q.buf q.tail e ∙ v.space in
    elim (Bool-cases (queue_free q == 0)) [
      | inl f ↦ rw f (record { space = len; head_bound = omega arith; tail_bound = omega arith })
      | inr f ↦ rw f (record { space = len; head_bound = v.head_bound; tail_bound = omega arith })
    ]

contents-room :
    (e : ExttsEvent) (q : Queue)
    → IsValid q
    → queue_cnt q < 127
    → contents (record q { buf = set q.buf q.tail e; tail = next q.tail }) ≡ contents q ++ e ∷ []
unfolding contents
contents-room e q v lt = rw (queue_cnt-tail q (set q.buf q.tail e) v lt) (
    items-append q.buf q.head (queue_cnt q) q.tail e v.space v.head_bound (omega arith) v.tail_bound
      (tail_of_head q v))

contents-full :
    (e : ExttsEvent) (q : Queue)
    → IsValid q
    → queue_cnt q ≡ 127
    → contents (record q { buf = set q.buf q.tail e; head = next q.head; tail = next q.tail })
      ≡ drop 1 (contents q) ++ e ∷ []
unfolding contents items
contents-full e q v full =
    rw (queue_cnt-both q (set q.buf q.tail e) v, full)
      (items-append q.buf (next q.head) 126 q.tail e v.space (omega arith) (omega arith)
        v.tail_bound (omega (arith, tail_of_head q v)))

-- On a valid queue the new entry goes behind the others, and the oldest is dropped if there are 127.
pub contents-enqueue :
    (e : ExttsEvent) (q : Queue) → IsValid q → contents (enqueue e q) ≡ push e (contents q)
unfolding enqueue push queue_free
contents-enqueue e q v = elim (Bool-cases (queue_cnt q == 127)) [
  | inl f ↦ ground (arith, f, length-contents q, contents-full e q v)
  | inr f ↦ ground (arith, f, length-contents q, contents-room e q v, queue_cnt-lt q v)
]

-- Moving on to the next entry keeps the queue valid.
pub next-IsValid : (q : Queue) → IsValid q → IsValid (record q { head = next q.head })
next-IsValid q v = record { space = v.space; head_bound = omega arith; tail_bound = v.tail_bound }

-- The oldest entry, and the others.
pub contents-head :
    (q : Queue)
    → IsValid q
    → 0 < queue_cnt q
    → contents q ≡ get_or q.buf q.head no_event ∷ contents (record q { head = next q.head })
unfolding contents items
contents-head q v lt = rw (queue_cnt-head q v lt)

-- On a valid queue a copy of at most as many entries as it has takes the oldest, in order.
pub read_events-contents :
    (n : ℕ) (q : Queue)
    → IsValid q
    → n ≤ queue_cnt q
    → ((read_events n q).0 ≡ take n (contents q))
      × (contents (read_events n q).1 ≡ drop n (contents q))
unfolding read_events
read_events-contents zero q v le = (refl, refl)
read_events-contents (suc n) q v le =
    let q' : Queue = record q { head = next q.head } in
    let v' = next-IsValid q v in
    let one = queue_cnt-head q v (omega arith) in
    ground (arith, one, contents-head q v (omega arith), read_events-contents n q' v' (omega arith))

pub read_events-IsValid : (n : ℕ) (q : Queue) → IsValid q → IsValid (read_events n q).1
unfolding read_events
read_events-IsValid zero q v = v
read_events-IsValid (suc n) q v =
    read_events-IsValid n (record q { head = next q.head }) (next-IsValid q v)
