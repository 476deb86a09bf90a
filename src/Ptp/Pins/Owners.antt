-- ===== src/Ptp/Pins/Owners.antt =====
-- Every function of a clock's pins has one pin at most.
use netdevsim_dkms.Base.{
  ℕ, ◌+◌, ◌≡◌, ◌≤◌, ◌<◌, Bool, true, false, ◌&&◌, inl, inr, Option, none, some, List, arith,
  success, ◌==◌, length, get_or, set, bit, find_index, count, count-set, count-none,
  find_index-passes, find_index_unique, length-set, Bool-cases, Option-cases, get_or-set_self,
}
use netdevsim_dkms.Ptp.Pins.{
  PinFunction, PinDesc, PinConfig, code, has_function, unused_pin, find_pin, assign, set_pinfunc,
}

code-injective : (f g : PinFunction) → code f ≡ code g → f ≡ g
code-injective f g h = ground arith

-- How many pins have the function on the channel, before and after a pin is written.
count-write :
    (f : PinFunction) (c pin : ℕ) (p : PinDesc) (ps : List PinDesc)
    → pin < length ps
    → count (has_function f c) (set ps pin p) + bit (has_function f c (get_or ps pin unused_pin))
      ≡ count (has_function f c) ps + bit (has_function f c p)
count-write f c pin p ps lt = count-set (has_function f c) unused_pin ps pin p lt

-- A function that is assigned has one pin then, if it had one at most.
assign-count_self :
    (pin : ℕ) (f : PinFunction) (c : ℕ) (k : PinConfig)
    → pin < length k.pins
    → ¬ (code f ≡ 0)
    → count (has_function f c) k.pins ≤ 1
    → count (has_function f c) (assign pin f c (find_pin f c k) k).0.pins ≤ 1
unfolding find_pin assign
assign-count_self pin f c k lt real one =
    elim (Option-cases (find_index (has_function f c) k.pins)) [
      | inl e ↦
          let zero_before = count-none (has_function f c) k.pins e in
          let new : PinDesc = record { func = f; chan = c } in
          rw (assign, e) (ground (arith, zero_before, count-write f c pin new k.pins lt))
      | inr (i, e) ↦
          let (bound, passes) = find_index-passes (has_function f c) unused_pin k.pins i e in
          let new : PinDesc = record { func = f; chan = c } in
          let pins : List PinDesc = set k.pins i unused_pin in
          let a = count-write f c i unused_pin k.pins bound in
          let b = count-write f c pin new pins (omega (arith, length-set k.pins i unused_pin)) in
          rw (assign, e) (ground (arith, passes, a, b, real))
    ]

-- A function that is not assigned gets no pin.
assign-count_other :
    (pin : ℕ) (f : PinFunction) (c : ℕ) (g : PinFunction) (d : ℕ) (k : PinConfig)
    → pin < length k.pins
    → ¬ (code g ≡ 0)
    → (code f == code g) && (c == d) ≡ false
    → count (has_function g d) k.pins ≤ 1
    → count (has_function g d) (assign pin f c (find_pin f c k) k).0.pins ≤ 1
unfolding find_pin assign
assign-count_other pin f c g d k lt real other one =
    elim (Option-cases (find_index (has_function f c) k.pins)) [
      | inl e ↦
          let new : PinDesc = record { func = f; chan = c } in
          rw (assign, e) (ground (arith, other, count-write g d pin new k.pins lt))
      | inr (i, e) ↦
          let (bound, passes) = find_index-passes (has_function f c) unused_pin k.pins i e in
          let new : PinDesc = record { func = f; chan = c } in
          let pins : List PinDesc = set k.pins i unused_pin in
          let a = count-write g d i unused_pin k.pins bound in
          let b = count-write g d pin new pins (omega (arith, length-set k.pins i unused_pin)) in
          rw (assign, e) (ground (arith, other, a, b, real))
    ]

assign-count :
    (pin : ℕ) (f : PinFunction) (c : ℕ) (g : PinFunction) (d : ℕ) (k : PinConfig)
    → pin < length k.pins
    → ¬ (code g ≡ 0)
    → count (has_function g d) k.pins ≤ 1
    → count (has_function g d) (assign pin f c (find_pin f c k) k).0.pins ≤ 1
assign-count pin f c g d k lt real one = elim (Bool-cases ((code f == code g) && (c == d))) [
  | inl e ↦
      let same_f = code-injective f g (ground (arith, e)) in
      let same_c : c ≡ d = ground (arith, e) in
      rw (same_f, same_c) (assign-count_self pin g d k lt real one)
  | inr e ↦ assign-count_other pin f c g d k lt real e one
]

-- `ptp_set_pinfunc` on a pin of the clock keeps functions exclusive, whatever it is asked and answers:
-- a function other than PTP_PF_NONE and a channel that one pin has at most have one pin at most.
pub set_pinfunc-exclusive :
    (refused : Bool) (pin : ℕ) (f : PinFunction) (c : ℕ) (g : PinFunction) (d : ℕ) (k : PinConfig)
    → pin < length k.pins
    → ¬ (code g ≡ 0)
    → count (has_function g d) k.pins ≤ 1
    → count (has_function g d) (set_pinfunc refused pin f c k).1.pins ≤ 1
unfolding set_pinfunc
set_pinfunc-exclusive refused pin f c g d k lt real one =
    ground (arith, assign-count pin f c g d k lt real one)

assign-has_function :
    (pin : ℕ) (f : PinFunction) (c : ℕ) (o : Option ℕ) (k : PinConfig)
    → pin < length k.pins
    → let ps = (assign pin f c o k).0.pins in
      (pin < length ps) × (has_function f c (get_or ps pin unused_pin) ≡ true)
unfolding assign
assign-has_function pin f c none k lt =
    let new : PinDesc = record { func = f; chan = c } in
    let there = get_or-set_self k.pins pin new unused_pin lt in
    (omega (arith, lt, length-set k.pins pin new), rw there (ground arith))
assign-has_function pin f c (some i) k lt =
    let new : PinDesc = record { func = f; chan = c } in
    let ps : List PinDesc = set k.pins i unused_pin in
    let bound : pin < length ps = omega (arith, lt, length-set k.pins i unused_pin) in
    let there = get_or-set_self ps pin new unused_pin bound in
    (omega (arith, bound, length-set ps pin new), rw there (ground arith))

-- After a `ptp_set_pinfunc` that succeeded, of a function other than PTP_PF_NONE that one pin had at
-- most, `ptp_find_pin` finds the function on that pin.
pub find_pin-set_pinfunc :
    (refused : Bool) (pin : ℕ) (f : PinFunction) (c : ℕ) (k : PinConfig)
    → pin < length k.pins
    → ¬ (code f ≡ 0)
    → count (has_function f c) k.pins ≤ 1
    → (set_pinfunc refused pin f c k).0 ≡ success
    → find_pin f c (set_pinfunc refused pin f c k).1 ≡ some pin
unfolding find_pin set_pinfunc
find_pin-set_pinfunc refused pin f c k lt real one done =
    let k' : PinConfig = (assign pin f c (find_pin f c k) k).0 in
    let (bound, there) = assign-has_function pin f c (find_pin f c k) k lt in
    let now =
      find_index_unique (has_function f c) unused_pin k'.pins pin bound there
        (assign-count pin f c f c k lt real one) in
    ground (arith, done, now)
