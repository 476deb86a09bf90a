-- ===== src/Wpc/Receiver/Examples.antt =====
-- Concrete runs of the GNSS receiver and the lock of netdevsim/dpll.c.
use netdevsim_dkms.Base.{
  ℕ, ◌≡◌, refl, ◌⊎◌, true, false, some, List, [], ◌∷◌, ◌++◌, arith, ok, length,
}
use netdevsim_dkms.Wpc.{
  exit_timers, exit_gnss, unlocked, holdover, set_lock_status, enter_holdover, holdover_word,
  store_status, lock_status_store, gnss_open,
}
use netdevsim_dkms.Wpc.Ubx.{checksum_from, ubx_checksum, build_frame}
use netdevsim_dkms.Wpc.Ubx.Decoding.{decode, decode-build_frame}
use netdevsim_dkms.Wpc.Nmea.{gga_field, gga_quality, set_fix, parse_gga_fix}
use netdevsim_dkms.Wpc.Nmea.Sentences.{has_gga, is_plain, are_plain, fields, gga_sentence}
use netdevsim_dkms.Wpc.Receiver.{write_raw}
use netdevsim_dkms.Wpc.Receiver.Setting.{is_lost}
use netdevsim_dkms.Wpc.Receiver.Signal.{
  Step, write, open_device, store, holdover_timeout, step, run, init, run-init-lost,
  holdover_timeout-unlocked,
}
use netdevsim_dkms.Wpc.Receiver.Writing.{write_raw-gga_sentence}
use netdevsim_dkms.Wpc.Receiver.Leaving.{exit-write_raw}
use netdevsim_dkms.Wpc.Receiver.Blocking.{valset_message, are_others, write_raw-valset_message}

-- An acknowledgement of CFG-MSG.
abbrev ack_bytes : List ℕ
ack_bytes = 5 ∷ 1 ∷ 2 ∷ 0 ∷ 6 ∷ 1 ∷ []

ack_checksum : ubx_checksum ack_bytes ≡ (15, 56)
unfolding ubx_checksum checksum_from
ack_checksum = refl

decode-build_frame_example :
    (frame : List ℕ) × (build_frame 78 5 1 (6 ∷ 1 ∷ []) ≡ ok frame)
    × (length frame ≡ 10)
    × (decode frame ≡ some (5, 1, 6 ∷ 1 ∷ []))
decode-build_frame_example = decode-build_frame 78 5 1 (6 ∷ 1 ∷ []) (omega arith) (omega arith)

-- "$GNRMC,1", and the five fields of "$GPGGA,1,2,N,3,E,".
abbrev rmc : List ℕ
rmc = 36 ∷ 71 ∷ 78 ∷ 82 ∷ 77 ∷ 67 ∷ 44 ∷ 49 ∷ []

abbrev five_fields : List (List ℕ)
five_fields = (49 ∷ []) ∷ (50 ∷ []) ∷ (78 ∷ []) ∷ (51 ∷ []) ∷ (69 ∷ []) ∷ []

rmc-plain : has_gga rmc ≡ false
unfolding has_gga
rmc-plain = refl

five_fields-plain : are_plain five_fields ≡ true
unfolding are_plain is_plain
five_fields-plain = refl

abbrev no_fix : List ℕ
no_fix = rmc ++ gga_sentence 71 80 five_fields 0 (44 ∷ 48 ∷ [])

write_raw-gga_sentence_example :
    ((write_raw 7 no_fix init).gnss_gps_fix ≡ 0)
    × ((write_raw 7 no_fix init).lock_status ≡ holdover)
    × ((write_raw 7 no_fix init).inserted ≡ no_fix ∷ [])
write_raw-gga_sentence_example =
    write_raw-gga_sentence 7 rmc 71 80 0 five_fields (44 ∷ 48 ∷ []) init refl rmc-plain refl
      five_fields-plain (omega arith) refl

-- The signal is lost, and user space tries to lock the DPLL by hand.
abbrev history : List Step
history = open_device ∷ write 7 no_fix ∷ store holdover_word ∷ []

history-lost : is_lost (run history init) ≡ true
unfolding run step gnss_open write_raw parse_gga_fix gga_quality gga_field gga_sentence fields
    set_fix enter_holdover set_lock_status lock_status_store store_status
history-lost = refl

run-init-lost_example :
    (((run history init).lock_status ≡ holdover) × ((run history init).holdover_timer ≡ true))
    ⊎ ((run history init).lock_status ≡ unlocked)
run-init-lost_example = run-init-lost history history-lost

holdover_timeout-unlocked_example :
    (step holdover_timeout (run history init)).lock_status ≡ unlocked
holdover_timeout-unlocked_example = holdover_timeout-unlocked history history-lost

-- A poll of NAV-STATUS.
abbrev poll : List ℕ
poll = 181 ∷ 98 ∷ 1 ∷ 3 ∷ 0 ∷ 0 ∷ 4 ∷ 13 ∷ []

abbrev other_key : List (ℕ × ℕ)
other_key = (536870913, 1) ∷ []

other_key-other : are_others other_key ≡ true
unfolding are_others
other_key-other = refl

abbrev block : List ℕ
block = valset_message (14 ∷ 0 ∷ 0 ∷ 1 ∷ 0 ∷ 0 ∷ []) other_key 50 [] (9 ∷ 9 ∷ [])

write_raw-valset_message_example :
    let d' = write_raw 7 block init in
    (d'.signal_blocked ≡ true)
    × (d'.gnss_gps_fix ≡ 0)
    × (d'.lock_status ≡ holdover)
    × (d'.holdover_timer ≡ true)
    × ((frame : List ℕ) × (d'.inserted ≡ frame ∷ []) × (decode frame ≡ some (5, 1, 6 ∷ 138 ∷ [])))
write_raw-valset_message_example =
    write_raw-valset_message 7 50 14 0 0 1 0 0 9 9 other_key [] init other_key-other

exit-write_raw_example :
    let alone = exit_gnss (exit_timers init) in
    (alone.holdover_timer ≡ false)
    × (alone.ubx_timer ≡ false)
    × (alone.ntf_work ≡ false)
    × ((exit_gnss (write_raw 7 block (exit_timers init))).holdover_timer ≡ true)
exit-write_raw_example =
    exit-write_raw 7 50 14 0 0 1 0 0 9 9 other_key [] init other_key-other (omega arith)
