-- ===== src/Ptp/Queue/Trace/Refinement.antt =====
-- A reader's queue does what its FIFO does, in every step and so in every history.
use netdevsim_dkms.Base.{
  ℕ, zero, suc, ◌*◌, ◌/◌, ◌≡◌, refl, ap, ◌∙◌, Bool, List, [], ◌∷◌, ◌++◌, inl, inr, arith,
  if◌then◌else◌, length-replicate, Option-cases, ℤ,
}
use netdevsim_dkms.Ptp.Queue.{
  ExttsEvent, Queue, ClockEvent, alarm, extts, extoff, pps, pps_usr, queue_cnt, read_events,
  entry_of, enqueue, enqueue_external_timestamp, enqueue_selected, ptp_clock_event, mask_clear_all,
  mask_en_single, ReadEnv, ptp_read, new_queue, ptp_max_timestamps, no_event, next, min,
  ptp_buf_timestamps,
}
use netdevsim_dkms.Ptp.Queue.Cursor.{IsValid, contents, items}
use netdevsim_dkms.Ptp.Queue.Fifo.{enqueue-IsValid, read_events-IsValid}
use netdevsim_dkms.Ptp.Queue.Readers.{receive, ptp_clock_event_refines, ptp_read_refines}
use netdevsim_dkms.Ptp.Queue.Trace.{
  Step, event, read, clear_all, en_single, reader_of, new_reader, first_or, step, reader_step,
  trace, reader_trace,
}

abbrev first_fifo : List (List ExttsEvent) → List ExttsEvent
first_fifo [] = []
first_fifo (x ∷ xs) = x

read_events_mask : (n : ℕ) (q : Queue) → (read_events n q).1.mask ≡ q.mask
unfolding read_events
read_events_mask zero q = refl
read_events_mask (suc n) q = read_events_mask n (record q { head = next q.head })

module _ (ns_to_timespec64 : ℤ → ℤ × ℕ) (size : ℕ) where
  -- A step on a valid queue is the step of its reader.
  record Refines (s : Step) (q : Queue) : Type 0 where
    same_step :
        ((step ns_to_timespec64 size s q).0, reader_of (step ns_to_timespec64 size s q).1)
        ≡ reader_step ns_to_timespec64 size s (reader_of q)
    still_valid : IsValid (step ns_to_timespec64 size s q).1

  enqueue_mask :
      (ev : ClockEvent) (i : ℕ) (q : Queue)
      → (if q.mask i then enqueue_external_timestamp ns_to_timespec64 ev q else q).mask ≡ q.mask
  unfolding enqueue_external_timestamp enqueue
  enqueue_mask ev i q = ground arith

  event_mask :
      (ev : ClockEvent) (q : Queue)
      → (first_or q (ptp_clock_event ns_to_timespec64 ev (q ∷ []))).mask ≡ q.mask
  unfolding ptp_clock_event enqueue_selected
  event_mask alarm q = refl
  event_mask (extts i t) q = enqueue_mask (extts i t) i q
  event_mask (extoff i o) q = enqueue_mask (extoff i o) i q
  event_mask pps q = refl
  event_mask pps_usr q = refl

  enqueue-selected-IsValid :
      (ev : ClockEvent) (i : ℕ) (q : Queue)
      → IsValid q
      → IsValid (if q.mask i then enqueue_external_timestamp ns_to_timespec64 ev q else q)
  unfolding enqueue_external_timestamp
  enqueue-selected-IsValid ev i q v = elim (Option-cases (entry_of ns_to_timespec64 ev)) [
    | inl f ↦ ground (arith, f, v)
    | inr (e, f) ↦ ground (arith, f, v, enqueue-IsValid e q v)
  ]

  event-IsValid :
      (ev : ClockEvent) (q : Queue)
      → IsValid q
      → IsValid (first_or q (ptp_clock_event ns_to_timespec64 ev (q ∷ [])))
  unfolding ptp_clock_event enqueue_selected
  event-IsValid alarm q v = v
  event-IsValid (extts i t) q v = enqueue-selected-IsValid (extts i t) i q v
  event-IsValid (extoff i o) q v = enqueue-selected-IsValid (extoff i o) i q v
  event-IsValid pps q v = v
  event-IsValid pps_usr q v = v

  event_contents :
      (ev : ClockEvent) (q : Queue)
      → IsValid q
      → contents (first_or q (ptp_clock_event ns_to_timespec64 ev (q ∷ [])))
        ≡ receive ns_to_timespec64 ev q.mask (contents q)
  unfolding ptp_clock_event enqueue_selected receive contents
  event_contents alarm q v = refl
  event_contents (extts i t) q v =
      ap first_fifo (ptp_clock_event_refines ns_to_timespec64 (extts i t) (q ∷ []) (v, tt))
  event_contents (extoff i o) q v =
      ap first_fifo (ptp_clock_event_refines ns_to_timespec64 (extoff i o) (q ∷ []) (v, tt))
  event_contents pps q v = refl
  event_contents pps_usr q v = refl

  read_mask :
      (env : ReadEnv) (cnt : ℕ) (q : Queue)
      → (step ns_to_timespec64 size (read env cnt) q).1.mask ≡ q.mask
  unfolding step ptp_read
  read_mask env cnt q =
      let n : ℕ = min (min cnt (ptp_buf_timestamps * size) / size) (queue_cnt q) in
      ground (arith, read_events_mask n q)

  read_step :
      (env : ReadEnv) (cnt : ℕ) (q : Queue)
      → IsValid q
      → (
        (step ns_to_timespec64 size (read env cnt) q).0,
        reader_of (step ns_to_timespec64 size (read env cnt) q).1,
      )
        ≡ reader_step ns_to_timespec64 size (read env cnt) (reader_of q)
  unfolding step reader_step
  read_step env cnt q v =
      let same = ptp_read_refines size env cnt q v in
      let mask = read_mask env cnt q in
      elim (Option-cases (ptp_read size env cnt q)) [
        | inl e ↦ ground (arith, e, same)
        | inr ((r, es, q'), e) ↦ ground (arith, e, same, mask)
      ]

  event_step :
      (ev : ClockEvent) (q : Queue)
      → IsValid q
      → (
        (step ns_to_timespec64 size (event ev) q).0,
        reader_of (step ns_to_timespec64 size (event ev) q).1,
      )
        ≡ reader_step ns_to_timespec64 size (event ev) (reader_of q)
  unfolding step reader_step
  event_step ev q v = ground (arith, event_mask ev q, event_contents ev q v)

  single_step : (copied : Bool) (i : ℕ) (q : Queue) → IsValid q → Refines (en_single copied i) q
  unfolding step reader_step mask_en_single contents queue_cnt
  single_step copied i q v = record {
    same_step = ground arith;
    still_valid = record {
      space = ground (arith, v.space);
      head_bound = ground (arith, v.head_bound);
      tail_bound = ground (arith, v.tail_bound);
    };
  }

  read-IsValid :
      (env : ReadEnv) (cnt : ℕ) (q : Queue)
      → IsValid q
      → IsValid (step ns_to_timespec64 size (read env cnt) q).1
  unfolding step ptp_read
  read-IsValid env cnt q v =
      let n : ℕ = min (min cnt (ptp_buf_timestamps * size) / size) (queue_cnt q) in
      ground (arith, read_events-IsValid n q v)

  step-Refines : (s : Step) (q : Queue) → IsValid q → Refines s q
  unfolding step reader_step mask_clear_all contents queue_cnt
  step-Refines (event ev) q v = record {
    same_step = event_step ev q v;
    still_valid = event-IsValid ev q v;
  }
  step-Refines (read env cnt) q v = record {
    same_step = read_step env cnt q v;
    still_valid = read-IsValid env cnt q v;
  }
  step-Refines clear_all q v = record {
    same_step = refl;
    still_valid = record { space = v.space; head_bound = v.head_bound; tail_bound = v.tail_bound };
  }
  step-Refines (en_single copied i) q v = single_step copied i q v

  trace-valid :
      (ss : List Step) (q : Queue)
      → IsValid q
      → trace ns_to_timespec64 size ss q ≡ reader_trace ns_to_timespec64 size ss (reader_of q)
  unfolding trace reader_trace
  trace-valid [] q v = refl
  trace-valid (s ∷ ss) q v =
      let now = step-Refines s q v in
      let later = trace-valid ss (step ns_to_timespec64 size s q).1 now.still_valid in
      ap (λ t. (step ns_to_timespec64 size s q).0 ++ t) later
      ∙ ap (λ r. r.0 ++ reader_trace ns_to_timespec64 size ss r.1) now.same_step

  -- What a reader gets after it has opened the clock, in any history of events, reads, errors included,
  -- and changes of its mask, is what a FIFO gives that takes the selected events, holds 127 entries
  -- and drops the oldest of them when it is full.
  pub trace_refines :
      (ss : List Step)
      → trace ns_to_timespec64 size ss new_queue ≡ reader_trace ns_to_timespec64 size ss new_reader
  unfolding new_queue contents queue_cnt items
  trace_refines ss = trace-valid ss new_queue fresh
    where
      fresh : IsValid new_queue
      fresh = record {
        space = length-replicate ptp_max_timestamps no_event;
        head_bound = omega arith;
        tail_bound = omega arith;
      }
