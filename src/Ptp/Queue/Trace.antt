-- ===== src/Ptp/Queue/Trace.antt =====
-- What happens to a reader in the course of a history of events, reads and changes of its mask: its
-- queue, and the FIFO that it stands for.
pub mod Refinement
use netdevsim_dkms.Base.{
  ℕ, zero, suc, ◌+◌, ◌-◌, ◌*◌, ◌/◌, ◌%◌, ◌≡◌, refl, ap, ◌∙◌, sym, ◌≤◌, ◌<◌, Bool, true, false, not,
  Option, none, some, List, [], ◌∷◌, ◌++◌, ◌⊎◌, inl, inr, arith, err, ok, Result, ltb, ◌==◌,
  if◌then◌else◌, length, replicate, length-replicate, Bool-cases, Option-cases, ℤ, take, drop,
}
use netdevsim_dkms.Ptp.Queue.{
  ExttsEvent, Queue, ClockEvent, alarm, extts, extoff, pps, pps_usr, queue_cnt, read_events,
  entry_of, enqueue, enqueue_external_timestamp, enqueue_selected, ptp_clock_event, mask_clear_all,
  mask_en_single, ReadEnv, ptp_read, new_queue, ptp_max_channels, ptp_max_timestamps, no_event,
  next, min, ptp_buf_timestamps,
}
use netdevsim_dkms.Ptp.Queue.Cursor.{IsValid, contents, items}
use netdevsim_dkms.Ptp.Queue.Fifo.{push, enqueue-IsValid, read_events-IsValid}
use netdevsim_dkms.Ptp.Queue.Readers.{
  channel, receive, ptp_clock_event_refines, fifo_read, with_contents, ptp_read_refines,
}

-- What happens to a reader's queue.
pub data Step : Type 0 where
  event : ClockEvent → Step
  read : ReadEnv → ℕ → Step
  clear_all : Step
  en_single : Bool → ℕ → Step

-- A reader: the channels it listens to, and the entries it can read.
pub record Reader : Type 0 where
  pub mask : ℕ → Bool
  pub fifo : List ExttsEvent

abbrev pub reader_of : Queue → Reader
reader_of q = record { mask = q.mask; fifo = contents q }

-- A reader that has just opened the clock.
abbrev pub new_reader : Reader
new_reader = record { mask = λ i. ltb i ptp_max_channels; fifo = [] }

abbrev pub first_or : Queue → List Queue → Queue
first_or q [] = q
first_or q (x ∷ xs) = x

-- `size` is that of an entry. A read gives what it copies; a read that waits gives nothing.
module _ (ns_to_timespec64 : ℤ → ℤ × ℕ) (size : ℕ) where
  unfoldable pub step : Step → Queue → List ExttsEvent × Queue
  step (event ev) q = ([], first_or q (ptp_clock_event ns_to_timespec64 ev (q ∷ [])))
  step (read env cnt) q = elim (ptp_read size env cnt q) [
    | none ↦ ([], q)
    | some (r, es, q') ↦ (es, q')
  ]
  step clear_all q = ([], (mask_clear_all q).1)
  step (en_single copied i) q = ([], (mask_en_single copied i q).1)

  unfoldable pub reader_step : Step → Reader → List ExttsEvent × Reader
  reader_step (event ev) r = ([], record r { fifo = receive ns_to_timespec64 ev r.mask r.fifo })
  reader_step (read env cnt) r = elim (fifo_read size env cnt r.fifo) [
    | none ↦ ([], r)
    | some (a, es, xs) ↦ (es, record r { fifo = xs })
  ]
  reader_step clear_all r = ([], record r { mask = λ i. false })
  reader_step (en_single copied i) r =
      if copied
      then if ltb i ptp_max_channels
        then ([], record r { mask = λ j. if j == i then true else r.mask j })
        else ([], r)
      else ([], r)

  -- All that a reader gets in a history, the first step first.
  unfoldable pub trace : List Step → Queue → List ExttsEvent
  trace [] q = []
  trace (s ∷ ss) q = let (es, q') = step s q in es ++ trace ss q'

  unfoldable pub reader_trace : List Step → Reader → List ExttsEvent
  reader_trace [] r = []
  reader_trace (s ∷ ss) r = let (es, r') = reader_step s r in es ++ reader_trace ss r'
