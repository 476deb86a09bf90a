-- ===== src/Ptp/Mock/Pulses.antt =====
-- The pulses of the simulated clock: one in a second of CLOCK_TAI, and none in the second in which
-- they are enabled.
use netdevsim_dkms.Base.{
  ℕ, ◌+◌, ◌-◌, ◌*◌, ◌/◌, ◌%◌, ◌^◌, ◌≡◌, sym, ◌∙◌, ◌≤◌, ◌<◌, true, none, some, arith,
}
use netdevsim_dkms.Ptp.Mock.{
  MockPhc, Pulse, sub64, nsec_per_sec, nsec_per_msec, read_locked, gettime64, extts_timer,
  req_extts, enable,
}

-- A run of the timer in the second that was last reported gives no pulse and changes nothing.
extts_timer-reported :
    (tai raw : ℕ) (p : MockPhc)
    → tai / nsec_per_sec ≡ p.last_extts_sec
    → ((extts_timer tai raw p).1 ≡ none) × ((extts_timer tai raw p).2 ≡ p)
unfolding extts_timer
extts_timer-reported tai raw p h = ground (arith, h)

extts_timer-last :
    (tai raw : ℕ) (p : MockPhc) (pulse : Pulse)
    → (extts_timer tai raw p).1 ≡ some pulse
    → (extts_timer tai raw p).2.last_extts_sec ≡ tai / nsec_per_sec
unfolding extts_timer read_locked
extts_timer-last tai raw p pulse h = ground arith

-- After a run of the timer that gave a pulse, another run in the same second of CLOCK_TAI gives none,
-- and changes nothing.
pub extts_timer-once :
    (tai tai' raw raw' : ℕ) (p : MockPhc) (pulse : Pulse)
    → (extts_timer tai raw p).1 ≡ some pulse
    → tai' / nsec_per_sec ≡ tai / nsec_per_sec
    → let p' = (extts_timer tai raw p).2 in
      ((extts_timer tai' raw' p').1 ≡ none) × ((extts_timer tai' raw' p').2 ≡ p')
extts_timer-once tai tai' raw raw' p pulse h same =
    let reported = extts_timer-last tai raw p pulse h in
    extts_timer-reported tai' raw' (extts_timer tai raw p).2 (same ∙ sym reported)

-- Once pulses are enabled, a run of the timer in the same second of CLOCK_TAI gives none; and the
-- clock then shows the reading of CLOCK_TAI, and runs with CLOCK_MONOTONIC, both below 2 ^ 64.
pub enable-extts_timer :
    (mono tai tai' raw e : ℕ) (p : MockPhc)
    → mono + e < 2 ^ 64
    → tai < 2 ^ 64
    → tai' / nsec_per_sec ≡ tai / nsec_per_sec
    → let p' = (enable mono tai (req_extts 0) true p).1 in
      ((extts_timer tai' raw p').1 ≡ none) × ((gettime64 (mono + e) p').0 ≡ (tai + e) % 2 ^ 64)
unfolding enable gettime64 read_locked
enable-extts_timer mono tai tai' raw e p hm ht same =
    let p' : MockPhc = (enable mono tai (req_extts 0) true p).1 in
    let quiet = extts_timer-reported tai' raw p' same in (quiet.0, ground arith)

-- A pulse comes no earlier than the delay after the second, and its timestamp is the clock's time less
-- what the timer was late.
pub extts_timer-timestamp :
    (tai raw : ℕ) (p : MockPhc) (pulse : Pulse)
    → (extts_timer tai raw p).1 ≡ some pulse
    → (p.extts_delay_ms * nsec_per_msec ≤ tai % nsec_per_sec)
      × (pulse.timestamp
          ≡ sub64 (gettime64 raw p).0 (tai % nsec_per_sec - p.extts_delay_ms * nsec_per_msec))
      × (pulse.index ≡ p.extts_channel)
unfolding extts_timer gettime64 read_locked
extts_timer-timestamp tai raw p pulse h = ground arith
