-- ===== src/Dpll/Setting.antt =====
-- Setting the frequency or the phase adjustment of a pin on all its devices: dpll_pin_freq_set and
-- dpll_pin_phase_adj_set of dpll/dpll_netlink.c, which call the driver of each device and, where one
-- refuses, put the old value back on those before it. The drivers are an argument.
pub mod Rollback
mod Examples
use netdevsim_dkms.Base.{
  ℕ, ◌%◌, ◌^◌, Bool, true, false, not, ◌&&◌, ◌||◌, Option, none, some, List, [], ◌∷◌, ◌++◌, map,
  einval, eopnotsupp, Errno, Result, ok, err, Status, success, ◌==◌, leb, ℤ, pos, negsuc,
  if◌then◌else◌,
}

-- What drivers offer: `D` is a device as the pin is registered with it, `V` the type of the value.
pub record Driver (V D : Type 0) : Type 0 where
  pub has_set : D → Bool
  pub has_get : D → Bool
  pub set_value : V → D → Status × D
  pub get_value : D → Result V
  pub same_value : V → V → Bool

-- `struct dpll_pin_frequency`
pub record FreqRange : Type 0 where
  pub min : ℕ
  pub max : ℕ

-- The parameter of `dpll_pin_is_freq_supported` has 32 bits.
unfoldable pub is_freq_supported : List FreqRange → ℕ → Bool
is_freq_supported [] freq = false
is_freq_supported (r ∷ rs) freq =
    if leb r.min (freq % 2 ^ 32) && leb (freq % 2 ^ 32) r.max
    then true
    else is_freq_supported rs freq

module _ {V D : Type 0} (drv : Driver V D) where
  unfoldable pub all_settable : List D → Bool
  all_settable [] = true
  all_settable (d ∷ ds) =
      if not (drv.has_set d) || not (drv.has_get d) then false else all_settable ds

  -- The loop over the devices: the answer, those that are set, and the rest from the one that refuses.
  unfoldable pub set_each : V → List D → Status × List D × List D
  set_each v [] = (success, [], [])
  set_each v (d ∷ ds) =
      let r = drv.set_value v d in
      let rest = set_each v ds in
      elim r.0 [ err e ↦ (err e, [], r.1 ∷ ds) | ok u ↦ (rest.0, r.1 ∷ rest.1, rest.2) ]

  -- The loop at the label `rollback`, whose failures are only told.
  unfoldable pub roll_back : V → List D → List D
  roll_back old [] = []
  roll_back old (d ∷ ds) = (drv.set_value old d).1 ∷ roll_back old ds

  abbrev pub set_or_back : V → V → List D → Status × List D
  set_or_back old v ds =
      let r = set_each v ds in
      elim r.0 [ err e ↦ (err e, roll_back old r.1 ++ r.2) | ok u ↦ (success, r.1) ]

  -- Both setters from the test of the value on, of a pin with its first device.
  unfoldable pub value_set : Bool → V → D → List D → Status × List D
  value_set supported v first ds =
      if not supported
      then (err einval, first ∷ ds)
      else if not (all_settable (first ∷ ds))
      then (err eopnotsupp, first ∷ ds)
      else elim (drv.get_value first) [
        | err e ↦ (err e, first ∷ ds)
        | ok old ↦
            if drv.same_value v old then (success, first ∷ ds) else set_or_back old v (first ∷ ds)
      ]

unfoldable pub freq_set :
    {D : Type 0} → Driver ℕ D → List FreqRange → ℕ → D → List D → Status × List D
freq_set drv freq_supported freq first ds =
    value_set drv (is_freq_supported freq_supported freq) freq first ds

abbrev pub int_leb : ℤ → ℤ → Bool
int_leb (pos m) (pos n) = leb m n
int_leb (pos m) (negsuc n) = false
int_leb (negsuc m) (pos n) = true
int_leb (negsuc m) (negsuc n) = leb n m

-- `min` and `max` are those of the pin's `phase_range`.
unfoldable pub phase_adj_set : {D : Type 0} → Driver ℤ D → ℤ → ℤ → ℤ → D → List D → Status × List D
phase_adj_set drv min max phase_adj first ds =
    value_set drv (int_leb phase_adj max && int_leb min phase_adj) phase_adj first ds
