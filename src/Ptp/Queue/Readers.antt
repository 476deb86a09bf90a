-- ===== src/Ptp/Queue/Readers.antt =====
-- The clock's queues as their readers see them: every reader has a FIFO of its own.
use netdevsim_dkms.Base.{
  ℕ, ◌+◌, ◌*◌, ◌/◌, ◌%◌, ◌≡◌, refl, ap, Bool, true, not, Option, none, some, List, [], ◌∷◌, map,
  inl, inr, arith, einval, enodev, enomem, efault, erestartsys, Result, ok, err, ◌==◌,
  if◌then◌else◌, length, take, drop, All, Option-cases, ℤ,
}
use netdevsim_dkms.Ptp.Queue.{
  ExttsEvent, Queue, ClockEvent, alarm, extts, extoff, pps, pps_usr, queue_cnt, entry_of,
  enqueue_external_timestamp, enqueue_selected, ptp_clock_event, ptp_open, ptp_release, ReadEnv,
  min, ptp_read, ptp_buf_timestamps, fifo_show,
}
use netdevsim_dkms.Ptp.Queue.Cursor.{IsValid, contents}
use netdevsim_dkms.Ptp.Queue.Fifo.{push, length-contents, contents-enqueue, read_events-contents}

-- The channel of an event that goes to the queues.
abbrev pub channel : ClockEvent → Option ℕ
channel alarm = none
channel (extts i t) = some i
channel (extoff i o) = some i
channel pps = none
channel pps_usr = none

module _ (ns_to_timespec64 : ℤ → ℤ × ℕ) where
  -- What an event makes of a reader with this mask and these entries.
  unfoldable pub receive : ClockEvent → (ℕ → Bool) → List ExttsEvent → List ExttsEvent
  receive ev mask xs = elim (channel ev) [
    | none ↦ xs
    | some i ↦
        if mask i
        then elim (entry_of ns_to_timespec64 ev) [ none ↦ xs | some e ↦ push e xs ]
        else xs
  ]

  selected_one :
      (i : ℕ) (ev : ClockEvent) (q : Queue)
      → IsValid q
      → channel ev ≡ some i
      → contents (if q.mask i then enqueue_external_timestamp ns_to_timespec64 ev q else q)
        ≡ receive ev q.mask (contents q)
  unfolding receive enqueue_external_timestamp
  selected_one i ev q v c = elim (Option-cases (entry_of ns_to_timespec64 ev)) [
    | inl f ↦ ground (arith, f, c)
    | inr (e, f) ↦ ground (arith, f, c, contents-enqueue e q v)
  ]

  selected :
      (i : ℕ) (ev : ClockEvent) (qs : List Queue)
      → All IsValid qs
      → channel ev ≡ some i
      → map contents (enqueue_selected ns_to_timespec64 i ev qs)
        ≡ map (λ q. receive ev q.mask (contents q)) qs
  unfolding enqueue_selected receive enqueue_external_timestamp
  selected i ev [] v c = refl
  selected i ev (q ∷ qs) v c = rw (selected_one i ev q v.0 c, selected i ev qs v.1 c)

  -- On valid queues an event reaches each reader whose mask selects its channel, as an entry of its
  -- FIFO, and no other; events that are no timestamps reach none.
  pub ptp_clock_event_refines :
      (ev : ClockEvent) (qs : List Queue)
      → All IsValid qs
      → map contents (ptp_clock_event ns_to_timespec64 ev qs)
        ≡ map (λ q. receive ev q.mask (contents q)) qs
  unfolding ptp_clock_event receive
  ptp_clock_event_refines alarm qs v = refl
  ptp_clock_event_refines (extts i t) qs v = selected i (extts i t) qs v refl
  ptp_clock_event_refines (extoff i o) qs v = selected i (extoff i o) qs v refl
  ptp_clock_event_refines pps qs v = refl
  ptp_clock_event_refines pps_usr qs v = refl

-- A `ptp_read` of a FIFO: an error, a caller that waits, or the oldest entries, at most 30, at most
-- as many as the caller asks for, which are lost if the caller's buffer cannot be written.
unfoldable pub fifo_read :
    ℕ → ReadEnv → ℕ → List ExttsEvent → Option (Result ℕ × List ExttsEvent × List ExttsEvent)
fifo_read size env cnt xs =
    if not (cnt % size == 0)
    then some (err einval, [], xs)
    else if env.defunct
    then some (err enodev, [], xs)
    else if length xs == 0
    then if env.signal then some (err erestartsys, [], xs) else none
    else if not env.memory
    then some (err enomem, [], xs)
    else let n = min (min cnt (ptp_buf_timestamps * size) / size) (length xs) in
      if env.writable
      then some (ok (n * size), take n xs, drop n xs)
      else some (err efault, [], drop n xs)

abbrev pub with_contents :
    Option (Result ℕ × List ExttsEvent × Queue)
    → Option (Result ℕ × List ExttsEvent × List ExttsEvent)
with_contents none = none
with_contents (some (r, es, q)) = some (r, es, contents q)

-- On a valid queue `ptp_read` is the read of the FIFO of its entries, errors and waiting included.
pub ptp_read_refines :
    (size : ℕ) (env : ReadEnv) (cnt : ℕ) (q : Queue)
    → IsValid q
    → with_contents (ptp_read size env cnt q) ≡ fifo_read size env cnt (contents q)
unfolding ptp_read fifo_read
ptp_read_refines size env cnt q v =
    let n : ℕ = min (min cnt (ptp_buf_timestamps * size) / size) (queue_cnt q) in
    ground (arith, length-contents q, read_events-contents n q v)

-- A reader that has opened the clock and closes it leaves the queues of the others.
pub ptp_release-ptp_open :
    (qs : List Queue) → ptp_release (length qs) (ptp_open true true qs).1 ≡ qs
unfolding ptp_release ptp_open
ptp_release-ptp_open [] = refl
ptp_release-ptp_open (q ∷ qs) = ap (λ t. q ∷ t) (ptp_release-ptp_open qs)

-- The bug: `extts_fifo_show` on a clock whose first queue is empty prints nothing and answers the
-- number of queues, as if it had printed that many characters.
pub fifo_show-empty :
    (printed : ExttsEvent → ℕ) (q : Queue) (qs : List Queue)
    → contents q ≡ []
    → fifo_show printed (q ∷ qs) ≡ (1 + length qs, none, q ∷ qs)
unfolding fifo_show
fifo_show-empty printed q qs h = ground (arith, h, length-contents q)
