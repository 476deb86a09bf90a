-- ===== src/Ptp/Queue/Cursor.antt =====
-- The entries between the two positions of a timestamp queue.
use netdevsim_dkms.Base.{
  ℕ, zero, suc, ◌+◌, ◌%◌, ◌≡◌, refl, ap, ◌∙◌, ◌≢◌, ◌<◌, List, [], ◌∷◌, ◌++◌, arith, length, get_or,
  set, get_or-set_ne, get_or-set_self,
}
use netdevsim_dkms.Ptp.Queue.{ExttsEvent, Queue, ptp_max_timestamps, no_event, next, queue_cnt}

pub record IsValid (q : Queue) : Type 0 where
  pub space : length q.buf ≡ ptp_max_timestamps
  pub head_bound : q.head < ptp_max_timestamps
  pub tail_bound : q.tail < ptp_max_timestamps

-- `n` entries from a position on, with the wrap at the end of the buffer.
unfoldable pub items : List ExttsEvent → ℕ → ℕ → List ExttsEvent
items buf h zero = []
items buf h (suc n) = get_or buf h no_event ∷ items buf (next h) n

-- The entries of a queue, the oldest first.
unfoldable pub contents : Queue → List ExttsEvent
contents q = items q.buf q.head (queue_cnt q)

pub length-items : (buf : List ExttsEvent) (h n : ℕ) → length (items buf h n) ≡ n
unfolding items
length-items buf h zero = refl
length-items buf h (suc n) = ap suc (length-items buf (next h) n)

-- A write to the entry behind them leaves them.
pub items-set :
    (buf : List ExttsEvent) (h n t : ℕ) (e : ExttsEvent)
    → h < ptp_max_timestamps
    → n < ptp_max_timestamps
    → t ≡ (h + n) % ptp_max_timestamps
    → items (set buf t e) h n ≡ items buf h n
unfolding items
items-set buf h zero t e hb nb same = refl
items-set buf h (suc n) t e hb nb same =
    let other : t ≢ h = λ p. omega (arith, p) in
    rw (
      get_or-set_ne buf t h e no_event other,
      items-set buf (next h) n t e (omega arith) (omega arith) (omega arith),
    )

pub items-last :
    (buf : List ExttsEvent) (h n t : ℕ)
    → h < ptp_max_timestamps
    → t ≡ (h + n) % ptp_max_timestamps
    → items buf h (suc n) ≡ items buf h n ++ get_or buf t no_event ∷ []
unfolding items
items-last buf h zero t hb same = let here : t ≡ h = omega arith in rw here
items-last buf h (suc n) t hb same =
    ap (λ xs. get_or buf h no_event ∷ xs) (items-last buf (next h) n t (omega arith) (omega arith))

pub queue_cnt-lt : (q : Queue) → IsValid q → queue_cnt q < ptp_max_timestamps
unfolding queue_cnt
queue_cnt-lt q v = ground (arith, v.head_bound, v.tail_bound)

-- The tail is the position behind the entries.
pub tail_of_head : (q : Queue) → IsValid q → q.tail ≡ (q.head + queue_cnt q) % ptp_max_timestamps
unfolding queue_cnt
tail_of_head q v = ground (arith, v.head_bound, v.tail_bound)

-- The entry that is written behind them becomes the last.
pub items-append :
    (buf : List ExttsEvent) (h n t : ℕ) (e : ExttsEvent)
    → length buf ≡ ptp_max_timestamps
    → h < ptp_max_timestamps
    → n < ptp_max_timestamps
    → t < ptp_max_timestamps
    → t ≡ (h + n) % ptp_max_timestamps
    → items (set buf t e) h (suc n) ≡ items buf h n ++ e ∷ []
items-append buf h n t e len hb nb tb same =
    items-last (set buf t e) h n t hb same
    ∙ rw (items-set buf h n t e hb nb same, get_or-set_self buf t e no_event (omega (arith, len)))

-- Where there is room the count goes up, and a full queue stays full.
pub queue_cnt-tail :
    (q : Queue) (buf : List ExttsEvent)
    → IsValid q
    → queue_cnt q < 127
    → queue_cnt (record q { buf = buf; tail = next q.tail }) ≡ suc (queue_cnt q)
unfolding queue_cnt
queue_cnt-tail q buf v lt = ground (arith, v.head_bound, v.tail_bound)

pub queue_cnt-both :
    (q : Queue) (buf : List ExttsEvent)
    → IsValid q
    → queue_cnt (record q { buf = buf; head = next q.head; tail = next q.tail }) ≡ queue_cnt q
unfolding queue_cnt
queue_cnt-both q buf v = ground (arith, v.head_bound, v.tail_bound)

pub queue_cnt-head :
    (q : Queue)
    → IsValid q
    → 0 < queue_cnt q
    → queue_cnt q ≡ suc (queue_cnt (record q { head = next q.head }))
unfolding queue_cnt
queue_cnt-head q v lt = ground (arith, v.head_bound, v.tail_bound)
