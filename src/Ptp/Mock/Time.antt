-- ===== src/Ptp/Mock/Time.antt =====
-- The time of the simulated clock after it is set, stepped or tuned.
use netdevsim_dkms.Base.{
  ℕ, ◌+◌, ◌-◌, ◌*◌, ◌/◌, ◌%◌, ◌^◌, ◌≡◌, ◌≤◌, ◌<◌, not, ◌&&◌, arith, ◌==◌, if◌then◌else◌,
}
use netdevsim_dkms.Ptp.Mock.{
  MockPhc, add64, sub64, mul64, is_positive, div_s64, nsec_per_sec, read_locked, adjfine, adjtime,
  settime64, gettime64,
}

-- A clock that is set runs on with CLOCK_MONOTONIC: read `e` nanoseconds later it shows `e` more,
-- whatever its offset and rate were. The time that is set and CLOCK_MONOTONIC are below 2 ^ 64.
pub gettime64-settime64 :
    (raw ns e : ℕ) (p : MockPhc)
    → raw + e < 2 ^ 64
    → ns < 2 ^ 64
    → (gettime64 (raw + e) (settime64 raw ns p)).0 ≡ (ns + e) % 2 ^ 64
unfolding gettime64 settime64 read_locked
gettime64-settime64 raw ns e p hr hn = ground arith

-- The instant's reading is stable: after any reading, another one at the same instant is the same.
read_locked-again :
    (raw : ℕ) (p : MockPhc)
    → raw < 2 ^ 64
    → let p' = (read_locked raw p).1 in (read_locked raw p').0 ≡ (read_locked raw p).0
unfolding read_locked
read_locked-again raw p hr = ground arith

-- A step by `delta` is seen at once, and a change of the rate is no step: read at the instant of the
-- change, which is below 2 ^ 64, the clock shows `delta` more, or what it would have shown.
pub gettime64-adjust :
    (raw delta scaled_ppm : ℕ) (p : MockPhc)
    → raw < 2 ^ 64
    → ((gettime64 raw (adjtime raw delta p)).0 ≡ add64 (gettime64 raw p).0 delta)
      × ((gettime64 raw (adjfine raw scaled_ppm p)).0 ≡ (gettime64 raw p).0)
unfolding gettime64 adjtime adjfine read_locked
gettime64-adjust raw delta scaled_ppm p hr = ground arith

-- What the rate `f` makes of `e` nanoseconds.
abbrev drift_of : ℕ → ℕ → ℕ
drift_of e f = if is_positive e && not (f == 0) then div_s64 (mul64 e f) nsec_per_sec else 0

-- A clock that was last read `e` nanoseconds ago.
read_locked-elapsed :
    (raw e : ℕ) (p : MockPhc)
    → raw + e < 2 ^ 64
    → p.last_mono_ns ≡ raw
    → (read_locked (raw + e) p).0 ≡ add64 (raw + e) (add64 p.offset_ns (drift_of e p.freq_ppb))
unfolding read_locked
read_locked-elapsed raw e p hr last =
    let elapsed : sub64 (raw + e) p.last_mono_ns ≡ e = omega (arith, last) in simp elapsed

drift_of-small : (e f : ℕ) → e < 2 ^ 63 → e * f < 2 ^ 63 → drift_of e f ≡ e * f / nsec_per_sec
unfolding div_s64
drift_of-small e f he small = grind arith

drift_of-overflow :
    (e f : ℕ)
    → 0 < e
    → e < 2 ^ 63
    → 2 ^ 63 ≤ e * f
    → e * f < 2 ^ 64
    → drift_of e f ≡ sub64 0 ((2 ^ 64 - e * f) / nsec_per_sec)
unfolding div_s64
drift_of-overflow e f pos he big fits = grind arith

-- A clock that was last read `e` nanoseconds ago has gained `e * freq_ppb / 1000000000` on
-- CLOCK_MONOTONIC, if the product is below 2 ^ 63, as is `e`, and CLOCK_MONOTONIC is below 2 ^ 64.
pub gettime64-drift :
    (raw e : ℕ) (p : MockPhc)
    → raw + e < 2 ^ 64
    → e < 2 ^ 63
    → p.last_mono_ns ≡ raw
    → e * p.freq_ppb < 2 ^ 63
    → (gettime64 (raw + e) p).0 ≡ (raw + e + p.offset_ns + e * p.freq_ppb / nsec_per_sec) % 2 ^ 64
unfolding gettime64
gettime64-drift raw e p hr he last small =
    let d = drift_of-small e p.freq_ppb he small in
    let r = read_locked-elapsed raw e p hr last in omega (arith, r, d)

-- The bug: where the rate is positive and its product with the `e` nanoseconds since the last reading
-- is 2 ^ 63 or more, and below 2 ^ 64, the product is taken for a negative number, and the clock falls
-- behind by (2 ^ 64 - e * freq_ppb) / 1000000000. `e` is below 2 ^ 63, CLOCK_MONOTONIC below 2 ^ 64.
pub gettime64-overflow :
    (raw e : ℕ) (p : MockPhc)
    → raw + e < 2 ^ 64
    → 0 < e
    → e < 2 ^ 63
    → p.last_mono_ns ≡ raw
    → p.freq_ppb < 2 ^ 63
    → 2 ^ 63 ≤ e * p.freq_ppb
    → e * p.freq_ppb < 2 ^ 64
    → (gettime64 (raw + e) p).0
      ≡ (raw + e + p.offset_ns + 2 ^ 64 - (2 ^ 64 - e * p.freq_ppb) / nsec_per_sec) % 2 ^ 64
unfolding gettime64
gettime64-overflow raw e p hr pos he last rate big fits =
    let d = drift_of-overflow e p.freq_ppb pos he big fits in
    let r = read_locked-elapsed raw e p hr last in omega (arith, r, d)
