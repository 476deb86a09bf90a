-- ===== src/Dpll/Setting/Examples.antt =====
-- Runs of the setters of dpll/dpll_netlink.c on concrete inputs.
use netdevsim_dkms.Base.{
  ◌↔◌, arith, ℕ, ◌+◌, ◌*◌, ◌^◌, ◌≡◌, refl, ap, Bool, true, false, not, ◌&&◌, List, [], ◌∷◌, arith,
  ebusy, Errno, ok, err, Status, success, ◌==◌, if◌then◌else◌,
}
use netdevsim_dkms.Dpll.Setting.{
  Driver, FreqRange, is_freq_supported, all_settable, set_each, roll_back, value_set,
}
use netdevsim_dkms.Dpll.Setting.Rollback.{
  HaveValue, value_set-err, value_set-HaveValue, is_freq_supported-IsWithin, IsWithin,
}

-- A device with whether its driver keeps it at the frequency that it has.
abbrev Oscillator : Type 0
Oscillator = Bool × ℕ

abbrev set_oscillator : ℕ → Oscillator → Status × Oscillator
set_oscillator v (locked, freq) =
    if locked && not (v == freq) then (err ebusy, (locked, freq)) else (success, (locked, v))

abbrev oscillators : Driver ℕ Oscillator
oscillators = record {
  has_set = λ d. true;
  has_get = λ d. true;
  set_value = set_oscillator;
  get_value = λ d. ok d.1;
  same_value = λ v w. v == w;
}

oscillators_refused :
    (v : ℕ) (d : Oscillator) (e : Errno)
    → (oscillators.set_value v d).0 ≡ err e
    → (oscillators.set_value v d).1 ≡ d
oscillators_refused v (locked, freq) e h = ground (arith, h)

oscillators_undone :
    (old v : ℕ) (d : Oscillator)
    → oscillators.get_value d ≡ ok old
    → (oscillators.set_value v d).0 ≡ success
    → (oscillators.set_value old (oscillators.set_value v d).1).1 ≡ d
oscillators_undone old v (locked, freq) has h = ground (arith, has, h)

oscillators_stored :
    (v : ℕ) (d : Oscillator)
    → (oscillators.set_value v d).0 ≡ success
    → oscillators.get_value (oscillators.set_value v d).1 ≡ ok v
oscillators_stored v (locked, freq) h = ground (arith, h)

oscillators_same : (v w : ℕ) → oscillators.same_value v w ≡ true → v ≡ w
oscillators_same v w h = ground (arith, h)

-- Two devices at 10 MHz, of which the second may be locked.
abbrev open_device : Oscillator
open_device = (false, 10000000)

abbrev locked_device : Oscillator
locked_device = (true, 10000000)

both_at_10_mhz :
    (d : Oscillator) → d.1 ≡ 10000000 → HaveValue oscillators 10000000 (open_device ∷ d ∷ [])
unfolding HaveValue
both_at_10_mhz d h = (refl, (ap (λ (f : ℕ). ok f) h, tt))

locked_refuses : (value_set oscillators true 1 open_device (locked_device ∷ [])).0 ≡ err ebusy
unfolding value_set all_settable set_each roll_back
locked_refuses = refl

value_set-err_example :
    (value_set oscillators true 1 open_device (locked_device ∷ [])).1
    ≡ open_device ∷ locked_device ∷ []
value_set-err_example =
    value_set-err oscillators oscillators_refused oscillators_undone true 10000000 1 open_device
      (locked_device ∷ []) ebusy (both_at_10_mhz locked_device refl) locked_refuses

open_accepts : (value_set oscillators true 1 open_device (open_device ∷ [])).0 ≡ success
unfolding value_set all_settable set_each roll_back
open_accepts = refl

value_set-HaveValue_example :
    HaveValue oscillators 1 (value_set oscillators true 1 open_device (open_device ∷ [])).1
value_set-HaveValue_example =
    value_set-HaveValue oscillators oscillators_stored oscillators_same true 10000000 1 open_device
      (open_device ∷ []) (both_at_10_mhz open_device refl) open_accepts

-- A pin of 1 Hz is given 4294967297 Hz.
abbrev one_hz : List FreqRange
one_hz = record { min = 1; max = 1 } ∷ []

is_freq_supported-IsWithin_example :
    (is_freq_supported one_hz (1 + 1 * 2 ^ 32) ≡ true) ↔ IsWithin one_hz 1
is_freq_supported-IsWithin_example = is_freq_supported-IsWithin one_hz 1 1 (omega arith)
