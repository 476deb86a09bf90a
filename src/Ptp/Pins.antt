-- ===== src/Ptp/Pins.antt =====
-- The pins of a PTP clock: `ptp_set_pinfunc` and `ptp_disable_pinfunc` of ptp/ptp_chardev.c and
-- `ptp_find_pin` of ptp/ptp_clock.c. The driver's check of a pin is an argument, and its requests are
-- recorded in the order in which they are made.
pub mod Owners
mod Examples
use netdevsim_dkms.Base.{
  ℕ, Bool, true, false, not, ◌&&◌, Option, none, some, List, [], ◌∷◌, ◌++◌, einval, eopnotsupp, ok,
  err, Status, success, ◌==◌, ltb, if◌then◌else◌, get_or, set, find_index,
}

-- `enum ptp_pin_function`, and the numbers that are none of them.
pub data PinFunction : Type 0 where
  pf_none pf_extts pf_perout pf_physync pf_unknown : PinFunction

-- `struct ptp_pin_desc`, without the name and the index.
pub record PinDesc : Type 0 where
  pub func : PinFunction
  pub chan : ℕ

-- The pins of a clock and how many channels it has.
pub record PinConfig : Type 0 where
  pub pins : List PinDesc
  pub n_ext_ts : ℕ
  pub n_per_out : ℕ

-- A call of the driver's `enable` that turns a channel off.
pub data Request : Type 0 where
  disable_extts : ℕ → Request
  disable_perout : ℕ → Request

abbrev pub code : PinFunction → ℕ
code pf_none = 0
code pf_extts = 1
code pf_perout = 2
code pf_physync = 3
code pf_unknown = 4

abbrev pub has_function : PinFunction → ℕ → PinDesc → Bool
has_function f c p = (code p.func == code f) && (p.chan == c)

abbrev pub unused_pin : PinDesc
unused_pin = record { func = pf_none; chan = 0 }

-- `none` is -1.
unfoldable pub find_pin : PinFunction → ℕ → PinConfig → Option ℕ
find_pin f c k = find_index (has_function f c) k.pins

-- The request of `ptp_disable_pinfunc`; its answer is not used.
unfoldable pub disable_pinfunc : PinFunction → ℕ → List Request
disable_pinfunc pf_none c = []
disable_pinfunc pf_extts c = disable_extts c ∷ []
disable_pinfunc pf_perout c = disable_perout c ∷ []
disable_pinfunc pf_physync c = []
disable_pinfunc pf_unknown c = []

-- The check of the function and the channel.
unfoldable pub is_allowed : PinFunction → ℕ → PinConfig → Bool
is_allowed pf_none c k = true
is_allowed pf_extts c k = ltb c k.n_ext_ts
is_allowed pf_perout c k = ltb c k.n_per_out
is_allowed pf_physync c k = c == 0
is_allowed pf_unknown c k = false

-- The function moves from the pin `pin1` that has it, if there is one, to `pin`.
unfoldable pub assign : ℕ → PinFunction → ℕ → Option ℕ → PinConfig → PinConfig × List Request
assign pin f c none k =
    let old = get_or k.pins pin unused_pin in
    (
      record k { pins = set k.pins pin (record { func = f; chan = c }) },
      disable_pinfunc old.func old.chan,
    )
assign pin f c (some i) k =
    let pins = set k.pins i unused_pin in
    let old = get_or pins pin unused_pin in
    (
      record k { pins = set pins pin (record { func = f; chan = c }) },
      disable_pinfunc f c ++ disable_pinfunc old.func old.chan,
    )

abbrev pub is_at : ℕ → Option ℕ → Bool
is_at pin none = false
is_at pin (some i) = i == pin

-- `refused` is a driver that does not take the function on that pin.
unfoldable pub set_pinfunc :
    Bool → ℕ → PinFunction → ℕ → PinConfig → Status × PinConfig × List Request
set_pinfunc refused pin f c k =
    let found = find_pin f c k in
    if is_at pin found
    then (success, k, [])
    else if not (is_allowed f c k)
    then (err einval, k, [])
    else if refused
    then (err eopnotsupp, k, [])
    else let (k', requests) = assign pin f c found k in (success, k', requests)
