-- ===== src/Ptp/Queue.antt =====
-- The queues of external timestamps of a PTP clock: ptp/ptp_clock.c, the readers of
-- ptp/ptp_chardev.c and ptp/ptp_sysfs.c, and `struct timestamp_event_queue` of ptp/ptp_private.h, as
-- built for kernels that have PTP_CLOCK_EXTOFF and contexts of posix clocks. The positions of a
-- queue stay below 128, so that the integers of the code are numbers.
pub mod Cursor
pub mod Fifo
pub mod Readers
pub mod Trace
mod Examples
use netdevsim_dkms.Base.{
  ℕ, zero, suc, ◌+◌, ◌-◌, ◌*◌, ◌/◌, ◌%◌, Bool, true, false, not, Option, none, some, List, [], ◌∷◌,
  ◌++◌, Errno, einval, enodev, enomem, efault, erestartsys, Result, ok, err, Status, success, ◌==◌,
  ltb, if◌then◌else◌, length, get_or, set, replicate, drop, take, ℤ, pos,
}

abbrev pub ptp_max_timestamps : ℕ
ptp_max_timestamps = 128

abbrev pub ptp_buf_timestamps : ℕ
ptp_buf_timestamps = 30

abbrev pub ptp_max_channels : ℕ
ptp_max_channels = 2048

-- `struct ptp_extts_event`: the time, and what the flags say.
pub record ExttsEvent : Type 0 where
  pub sec : ℤ
  pub nsec : ℕ
  pub index : ℕ
  pub valid : Bool
  pub ext_offset : Bool

-- `struct timestamp_event_queue`; `mask` is the bitmap of the channels, of which there are 2048.
pub record Queue : Type 0 where
  pub buf : List ExttsEvent
  pub head : ℕ
  pub tail : ℕ
  pub mask : ℕ → Bool

-- `struct ptp_clock_event`: the type, the channel and the time or the offset.
pub data ClockEvent : Type 0 where
  alarm : ClockEvent
  extts : ℕ → ℕ → ClockEvent
  extoff : ℕ → ℤ → ClockEvent
  pps : ClockEvent
  pps_usr : ClockEvent

-- A cleared entry of the buffer.
abbrev pub no_event : ExttsEvent
no_event = record { sec = pos 0; nsec = 0; index = 0; valid = false; ext_offset = false }

abbrev pub next : ℕ → ℕ
next i = (i + 1) % ptp_max_timestamps

unfoldable pub queue_cnt : Queue → ℕ
queue_cnt q = if ltb q.tail q.head then ptp_max_timestamps - (q.head - q.tail) else q.tail - q.head

unfoldable pub queue_free : Queue → ℕ
queue_free q = ptp_max_timestamps - queue_cnt q - 1

-- The entry that is written, and the move of the two positions; a full queue loses its oldest entry.
unfoldable pub enqueue : ExttsEvent → Queue → Queue
unfolding queue_free
enqueue e q =
    let buf = set q.buf q.tail e in
    if queue_free q == 0
    then record q { buf = buf; head = next q.head; tail = next q.tail }
    else record q { buf = buf; tail = next q.tail }

-- The copy of at most `n` entries of `ptp_read`.
unfoldable pub read_events : ℕ → Queue → List ExttsEvent × Queue
read_events zero q = ([], q)
read_events (suc n) q =
    let (es, q') = read_events n (record q { head = next q.head }) in
    (get_or q.buf q.head no_event ∷ es, q')

-- A queue that has been opened: an empty buffer and all channels.
unfoldable pub new_queue : Queue
new_queue = record {
  buf = replicate ptp_max_timestamps no_event;
  head = 0;
  tail = 0;
  mask = λ i. ltb i ptp_max_channels;
}

-- The conversion of nanoseconds to seconds and a rest is the kernel's.
module _ (ns_to_timespec64 : ℤ → ℤ × ℕ) where
  -- What an event puts into a queue, if it is of one of the two types that do.
  unfoldable pub entry_of : ClockEvent → Option ExttsEvent
  entry_of (extts i t) = some (record {
    sec = pos (t / 1000000000);
    nsec = t % 1000000000;
    index = i;
    valid = true;
    ext_offset = false;
  })
  entry_of (extoff i o) =
      let (s, n) = ns_to_timespec64 o in
      some (record { sec = s; nsec = n; index = i; valid = true; ext_offset = true })
  entry_of alarm = none
  entry_of pps = none
  entry_of pps_usr = none

  unfoldable pub enqueue_external_timestamp : ClockEvent → Queue → Queue
  enqueue_external_timestamp ev q = elim (entry_of ev) [ none ↦ q | some e ↦ enqueue e q ]

  -- The loop over the queues, each of which takes what its mask selects. With a channel `i` of 2048 or more
  -- the code reads past the bitmap; what it finds there is not modelled, the mask answers instead.
  unfoldable pub enqueue_selected : ℕ → ClockEvent → List Queue → List Queue
  enqueue_selected i ev [] = []
  enqueue_selected i ev (q ∷ qs) =
      (if q.mask i then enqueue_external_timestamp ev q else q) ∷ enqueue_selected i ev qs

  -- The pulses of PPS events go to the kernel's PPS source.
  unfoldable pub ptp_clock_event : ClockEvent → List Queue → List Queue
  ptp_clock_event alarm qs = qs
  ptp_clock_event (extts i t) qs = enqueue_selected i (extts i t) qs
  ptp_clock_event (extoff i o) qs = enqueue_selected i (extoff i o) qs
  ptp_clock_event pps qs = qs
  ptp_clock_event pps_usr qs = qs

-- The two flags: whether the queue and its bitmap are allocated.
unfoldable pub ptp_open : Bool → Bool → List Queue → Status × List Queue
ptp_open mem bitmap qs =
    if not mem
    then (err einval, qs)
    else if not bitmap
    then (err einval, qs)
    else (success, qs ++ new_queue ∷ [])

-- The queue is the one at the given place of the list.
unfoldable pub ptp_release : ℕ → List Queue → List Queue
ptp_release i [] = []
ptp_release zero (q ∷ qs) = qs
ptp_release (suc i) (q ∷ qs) = q ∷ ptp_release i qs

-- PTP_MASK_CLEAR_ALL and PTP_MASK_EN_SINGLE of `ptp_ioctl`; the flag says whether the channel could
-- be copied from the caller.
unfoldable pub mask_clear_all : Queue → Status × Queue
mask_clear_all q = (success, record q { mask = λ i. false })

unfoldable pub mask_en_single : Bool → ℕ → Queue → Status × Queue
mask_en_single copied i q =
    if not copied
    then (err efault, q)
    else if ltb i ptp_max_channels
    then (success, record q { mask = λ j. if j == i then true else q.mask j })
    else (err efault, q)

-- Whether there is something to read.
unfoldable pub ptp_poll : Queue → Bool
ptp_poll q = not (queue_cnt q == 0)

-- What a call of `ptp_read` meets: a signal while it waits, the removal of the clock, whether its
-- buffer is allocated, whether the caller's buffer can be written.
pub record ReadEnv : Type 0 where
  pub signal : Bool
  pub defunct : Bool
  pub memory : Bool
  pub writable : Bool

abbrev pub min : ℕ → ℕ → ℕ
min a b = if ltb b a then b else a

-- `size` is that of `struct ptp_extts_event`, a type of the kernel. `none` is a caller that waits.
unfoldable pub ptp_read : ℕ → ReadEnv → ℕ → Queue → Option (Result ℕ × List ExttsEvent × Queue)
ptp_read size env cnt q =
    if not (cnt % size == 0)
    then some (err einval, [], q)
    else if env.defunct
    then some (err enodev, [], q)
    else if queue_cnt q == 0
    then if env.signal then some (err erestartsys, [], q) else none
    else if not env.memory
    then some (err enomem, [], q)
    else let n = min (min cnt (ptp_buf_timestamps * size) / size) (queue_cnt q) in
      let (es, q') = read_events n q in
      if env.writable then some (ok (n * size), es, q') else some (err efault, [], q')

-- `extts_fifo_show`: the answer, the event that was printed and the queues; `printed` is the length
-- of an event's text.
unfoldable pub fifo_show : (ExttsEvent → ℕ) → List Queue → ℕ × Option ExttsEvent × List Queue
fifo_show printed [] = (0, none, [])
fifo_show printed (q ∷ qs) =
    if queue_cnt q == 0
    then (length (q ∷ qs), none, q ∷ qs)
    else let e = get_or q.buf q.head no_event in
      (printed e, some e, record q { head = next q.head } ∷ qs)
