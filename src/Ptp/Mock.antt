-- ===== src/Ptp/Mock.antt =====
-- The simulated hardware clock of ptp/ptp_mock.c: its time, and the timer of its pulses. A 64-bit
-- integer is its residue, a number below 2 ^ 64, signed or not; sums and products wrap round, as the
-- kernel compiles them. The readings of the kernel's clocks are arguments, and times are in
-- nanoseconds, behind the kernel's conversions from and to seconds.
pub mod Time
pub mod Pulses
mod Examples
use netdevsim_dkms.Base.{
  ℕ, ◌+◌, ◌-◌, ◌*◌, ◌/◌, ◌%◌, ◌^◌, Bool, true, false, not, ◌&&◌, Option, none, some, einval, erange,
  eopnotsupp, Errno, ok, err, Result, Status, success, ◌==◌, ltb, if◌then◌else◌,
}

-- `struct mock_phc`, without the pins, the clock and the kernel's objects.
pub record MockPhc : Type 0 where
  pub offset_ns : ℕ
  pub freq_ppb : ℕ
  pub last_mono_ns : ℕ
  pub extts_enabled : Bool
  pub extts_channel : ℕ
  pub last_extts_sec : ℕ
  pub extts_delay_ms : ℕ

abbrev pub add64 : ℕ → ℕ → ℕ
add64 a b = (a + b) % 2 ^ 64

abbrev pub sub64 : ℕ → ℕ → ℕ
sub64 a b = (a + 2 ^ 64 - b) % 2 ^ 64

abbrev pub mul64 : ℕ → ℕ → ℕ
mul64 a b = a * b % 2 ^ 64

-- Whether a signed integer is positive.
abbrev pub is_positive : ℕ → Bool
is_positive a = not (a == 0) && ltb a (2 ^ 63)

-- The division of a signed integer by a positive one, towards zero.
unfoldable pub div_s64 : ℕ → ℕ → ℕ
div_s64 a d = if ltb a (2 ^ 63) then a / d else sub64 0 ((2 ^ 64 - a) / d)

abbrev pub nsec_per_sec : ℕ
nsec_per_sec = 1000000000

abbrev pub nsec_per_msec : ℕ
nsec_per_msec = 1000000

-- `mock_phc_read_locked`; `raw` is the reading of CLOCK_MONOTONIC.
unfoldable pub read_locked : ℕ → MockPhc → ℕ × MockPhc
read_locked raw p =
    let elapsed = sub64 raw p.last_mono_ns in
    let drift =
      if is_positive elapsed && not (p.freq_ppb == 0)
      then div_s64 (mul64 elapsed p.freq_ppb) nsec_per_sec
      else 0 in
    let offset = add64 p.offset_ns drift in
    (add64 raw offset, record p { offset_ns = offset; last_mono_ns = raw })

unfoldable pub adjfine : ℕ → ℕ → MockPhc → MockPhc
adjfine raw scaled_ppm p = record (read_locked raw p).1 {
  freq_ppb = div_s64 (mul64 scaled_ppm 1000) 65536;
}

unfoldable pub adjtime : ℕ → ℕ → MockPhc → MockPhc
adjtime raw delta p =
    let p' = (read_locked raw p).1 in record p' { offset_ns = add64 p'.offset_ns delta }

unfoldable pub settime64 : ℕ → ℕ → MockPhc → MockPhc
settime64 raw ns p = record p { last_mono_ns = raw; offset_ns = sub64 ns raw; freq_ppb = 0 }

unfoldable pub gettime64 : ℕ → MockPhc → ℕ × MockPhc
gettime64 raw p = read_locked raw p

abbrev pub extts_idle_poll_ns : ℕ
extts_idle_poll_ns = 100000000

abbrev pub extts_edge_slack_ns : ℕ
extts_edge_slack_ns = 1000000

abbrev pub extts_max_delay_ms : ℕ
extts_max_delay_ms = 900

-- An event of the type PTP_CLOCK_EXTTS.
pub record Pulse : Type 0 where
  pub timestamp : ℕ
  pub index : ℕ

-- The time until the timer runs again after the second `late_ns` ago.
unfoldable pub next_delta_ns : ℕ → ℕ → ℕ
next_delta_ns late_ns delay_ns =
    let delta = nsec_per_sec - late_ns + delay_ns + extts_edge_slack_ns in
    if ltb delta extts_edge_slack_ns then extts_edge_slack_ns else delta

-- A run of the timer at the given readings of CLOCK_TAI and CLOCK_MONOTONIC: the time until the next
-- one, and the event.
unfoldable pub extts_timer : ℕ → ℕ → MockPhc → ℕ × Option Pulse × MockPhc
extts_timer tai_ns raw p =
    let delay_ns = p.extts_delay_ms * nsec_per_msec in
    let tai_sec = tai_ns / nsec_per_sec in
    let late_ns = tai_ns % nsec_per_sec in
    if not p.extts_enabled
    then (extts_idle_poll_ns, none, p)
    else if tai_sec == p.last_extts_sec
    then (next_delta_ns late_ns delay_ns, none, p)
    else if ltb late_ns delay_ns
    then (delay_ns - late_ns, none, p)
    else let (phc_ns, p') = read_locked raw (record p { last_extts_sec = tai_sec }) in
      (
        next_delta_ns late_ns delay_ns,
        some (record { timestamp = sub64 phc_ns (late_ns - delay_ns); index = p.extts_channel }),
        p',
      )

-- The type of a request, and the channel of one for external timestamps.
pub data ClockRequest : Type 0 where
  req_extts : ℕ → ClockRequest
  req_other : ClockRequest

-- `n_ext_ts` of the clock is 1.
unfoldable pub enable : ℕ → ℕ → ClockRequest → Bool → MockPhc → Status × MockPhc
enable mono_ns tai_ns req_other on p = (err eopnotsupp, p)
enable mono_ns tai_ns (req_extts i) on p =
    if not (ltb i 1)
    then (err einval, p)
    else if on
    then (
      success,
      record p {
        extts_channel = i;
        last_mono_ns = mono_ns;
        offset_ns = sub64 tai_ns mono_ns;
        freq_ppb = 0;
        last_extts_sec = tai_ns / nsec_per_sec;
        extts_enabled = true;
      },
    )
    else (success, record p { extts_enabled = false })

-- `extts_delay_ms_store`: the time after which the timer is started anew, if it is, and the state. The
-- first argument is what the kernel's parser makes of the text.
unfoldable pub extts_delay_ms_store : Result ℕ → MockPhc → Status × Option ℕ × MockPhc
extts_delay_ms_store (err e) p = (err e, none, p)
extts_delay_ms_store (ok ms) p =
    if ltb extts_max_delay_ms ms
    then (err erange, none, p)
    else let p' = record p { extts_delay_ms = ms } in
      if p.extts_enabled then (success, some extts_edge_slack_ns, p') else (success, none, p')
