-- ===== src/Ptp/Queue/Examples.antt =====
-- Events, reads and readers on concrete queues.
use netdevsim_dkms.Base.{
  ℕ, ◌≡◌, refl, List, [], ◌∷◌, true, false, [], ◌∷◌, arith, ℤ, pos, ltb, set, replicate,
}
use netdevsim_dkms.Ptp.Queue.{ExttsEvent, Queue, extts, queue_cnt, new_queue, ReadEnv, no_event}
use netdevsim_dkms.Ptp.Queue.Cursor.{IsValid, items, contents}
use netdevsim_dkms.Ptp.Queue.Trace.{
  Step, event, read, clear_all, en_single, new_reader, trace, reader_trace,
}
use netdevsim_dkms.Ptp.Queue.Trace.Refinement.{trace_refines}

abbrev at : ℕ → ExttsEvent
at t = record { sec = pos t; nsec = 0; index = 0; valid = true; ext_offset = false }

-- A queue with two entries, one at each end of the buffer.
abbrev wrapped : Queue
wrapped = record {
  buf = at 8 ∷ set (replicate 127 no_event) 126 (at 7);
  head = 127;
  tail = 1;
  mask = λ i. ltb i 2;
}

abbrev deaf : Queue
deaf = record wrapped { mask = λ i. false }

wrapped-IsValid : IsValid wrapped
wrapped-IsValid = record { space = refl; head_bound = omega arith; tail_bound = omega arith }

deaf-IsValid : IsValid deaf
deaf-IsValid = record { space = refl; head_bound = omega arith; tail_bound = omega arith }

-- A conversion that is right for numbers that are not negative.
abbrev seconds : ℤ → ℤ × ℕ
seconds o = (pos 0, 5)

abbrev calm : ReadEnv
calm = record { signal = false; defunct = false; memory = true; writable = true }

contents-wrapped : contents wrapped ≡ at 7 ∷ at 8 ∷ []
unfolding contents items queue_cnt
contents-wrapped = refl

-- Two events, the second on a channel that is not listened to any more, and a read of both.
abbrev history : List Step
history =
    event (extts 1 5000000007)
    ∷ clear_all
    ∷ en_single true 0
    ∷ event (extts 1 6000000007)
    ∷ read calm 64
    ∷ []

trace_refines_example :
    trace seconds 32 history new_queue ≡ reader_trace seconds 32 history new_reader
trace_refines_example = trace_refines seconds 32 history
