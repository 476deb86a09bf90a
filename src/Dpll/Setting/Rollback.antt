-- ===== src/Dpll/Setting/Rollback.antt =====
-- What the setters of dpll/dpll_netlink.c leave on the devices of a pin, when a driver refuses and when none
-- does.
use netdevsim_dkms.Base.{
  ℕ, ◌+◌, ◌*◌, ◌%◌, ◌^◌, ◌≡◌, refl, sym, ap, subst, ◌∙◌, ◌<◌, ◌≤◌, ◌↔◌, ◌&&◌, leb, Bool, true,
  false, List, [], ◌∷◌, ◌++◌, arith, Errno, ok, err, success, Bool-cases, Result-cases, inl, inr,
}
use netdevsim_dkms.Dpll.Setting.{
  Driver, FreqRange, is_freq_supported, set_each, roll_back, value_set,
}

-- All the devices have a value.
unfoldable pub HaveValue : {V D : Type 0} → Driver V D → V → List D → Type 0
HaveValue drv v [] = Unit
HaveValue drv v (d ∷ ds) = (drv.get_value d ≡ ok v) × HaveValue drv v ds

module _ {V D : Type 0} (drv : Driver V D)
    (refused : (v : V) (d : D) (e : Errno)
      → (drv.set_value v d).0 ≡ err e
      → (drv.set_value v d).1 ≡ d)
    (undone : (old v : V) (d : D)
      → drv.get_value d ≡ ok old
      → (drv.set_value v d).0 ≡ success
      → (drv.set_value old (drv.set_value v d).1).1 ≡ d) where
  set_each-roll_back :
      (old v : V) (ds : List D) (e : Errno)
      → HaveValue drv old ds
      → (set_each drv v ds).0 ≡ err e
      → roll_back drv old (set_each drv v ds).1 ++ (set_each drv v ds).2 ≡ ds
  unfolding HaveValue set_each roll_back
  set_each-roll_back old v [] e have h = ground (arith, h)
  set_each-roll_back old v (d ∷ ds) e (has, have) h = elim (Result-cases (drv.set_value v d).0) [
    | inl (x, q) ↦ ground (arith, q, ap (λ y. y ∷ ds) (refused v d x q))
    | inr (u, q) ↦
        let rest = set_each drv v ds in
        let put_back = ap (λ y. y ∷ (roll_back drv old rest.1 ++ rest.2)) (undone old v d has q) in
        ground (arith, h, q, put_back, ap (λ y. d ∷ y), set_each-roll_back old v ds e have)
  ]

  -- A value that is not set on all devices of a pin, since it is not supported, since a driver has no such
  -- operation or since a driver refuses it, leaves every device as it was, where the devices had one value
  -- before. A driver that refuses a value keeps its device as it is, and can put back the value it had.
  pub value_set-err :
      (supported : Bool) (old v : V) (first : D) (ds : List D) (e : Errno)
      → HaveValue drv old (first ∷ ds)
      → (value_set drv supported v first ds).0 ≡ err e
      → (value_set drv supported v first ds).1 ≡ first ∷ ds
  unfolding HaveValue value_set
  value_set-err supported old v first ds e (has, have) h =
      elim (Result-cases (set_each drv v (first ∷ ds)).0) [
        | inl (x, q) ↦
            ground (arith, h, has, q, set_each-roll_back old v (first ∷ ds) x (has, have) q)
        | inr (u, q) ↦ ground (arith, h, has, q)
      ]

module _ {V D : Type 0} (drv : Driver V D)
    (stored : (v : V) (d : D)
      → (drv.set_value v d).0 ≡ success
      → drv.get_value (drv.set_value v d).1 ≡ ok v)
    (same : (v w : V) → drv.same_value v w ≡ true → v ≡ w) where
  set_each-HaveValue :
      (v : V) (ds : List D)
      → (set_each drv v ds).0 ≡ success
      → HaveValue drv v (set_each drv v ds).1
  unfolding HaveValue set_each
  set_each-HaveValue v [] h = tt
  set_each-HaveValue v (d ∷ ds) h = elim (Result-cases (drv.set_value v d).0) [
    | inl (x, q) ↦ ground (arith, h, q)
    | inr (u, q) ↦
        let rest = set_each drv v ds in
        let done : (set_each drv v (d ∷ ds)).1 ≡ (drv.set_value v d).1 ∷ rest.1 =
          ground (arith, q) in
        let more : rest.0 ≡ success = ground (arith, h, q) in
        subst (HaveValue drv v) (sym done) (stored v d q, set_each-HaveValue v ds more)
  ]

  -- A value that is set, or that the first device had already, is the value of every device of a pin, where
  -- the devices had one value before. A driver that accepts a value gives it when it is asked.
  pub value_set-HaveValue :
      (supported : Bool) (old v : V) (first : D) (ds : List D)
      → HaveValue drv old (first ∷ ds)
      → (value_set drv supported v first ds).0 ≡ success
      → HaveValue drv v (value_set drv supported v first ds).1
  unfolding HaveValue value_set
  value_set-HaveValue supported old v first ds (has, have) h =
      elim (Bool-cases (drv.same_value v old)) [
        | inl q ↦
            let done : (value_set drv supported v first ds).1 ≡ first ∷ ds =
              ground (arith, h, has, q) in
            subst (HaveValue drv v) (sym done)
              (subst (λ (w : V). HaveValue drv w (first ∷ ds)) (sym (same v old q)) (has, have))
        | inr q ↦
            let each : (set_each drv v (first ∷ ds)).0 ≡ success = ground (arith, h, has, q) in
            let done : (value_set drv supported v first ds).1 ≡ (set_each drv v (first ∷ ds)).1 =
              ground (arith, h, has, q, each) in
            subst (HaveValue drv v) (sym done) (set_each-HaveValue v (first ∷ ds) each)
      ]

-- A frequency lies in one of the ranges, its ends included.
pub data IsWithin : List FreqRange → ℕ → Type 0 where
  here :
      {r : FreqRange} {rs : List FreqRange} {freq : ℕ}
      → r.min ≤ freq
      → freq ≤ r.max
      → IsWithin (r ∷ rs) freq
  there :
      {r : FreqRange} {rs : List FreqRange} {freq : ℕ} → IsWithin rs freq → IsWithin (r ∷ rs) freq

IsWithin-tail :
    (r : FreqRange) (rs : List FreqRange) (freq : ℕ)
    → (leb r.min freq && leb freq r.max) ≡ false
    → IsWithin (r ∷ rs) freq
    → IsWithin rs freq
IsWithin-tail r rs freq out (here low high) = absurd (ground (arith, out, low, high))
IsWithin-tail r rs freq out (there w) = w

IsWithin-test :
    (rs : List FreqRange) (freq : ℕ)
    → freq < 2 ^ 32
    → is_freq_supported rs freq ≡ true
    → IsWithin rs freq
unfolding is_freq_supported
IsWithin-test [] freq small h = absurd (ground (arith, h))
IsWithin-test (r ∷ rs) freq small h =
    let whole : freq % 2 ^ 32 ≡ freq = omega (arith, small) in
    elim (Bool-cases (leb r.min freq && leb freq r.max)) [
      | inl t ↦ here (ground (arith, t)) (ground (arith, t))
      | inr t ↦ there (IsWithin-test rs freq small (ground (arith, h, whole, t)))
    ]

test-IsWithin :
    (rs : List FreqRange) (freq : ℕ)
    → freq < 2 ^ 32
    → IsWithin rs freq
    → is_freq_supported rs freq ≡ true
unfolding is_freq_supported
test-IsWithin [] freq small w = elim w [ ]
test-IsWithin (r ∷ rs) freq small w =
    let whole : freq % 2 ^ 32 ≡ freq = omega (arith, small) in
    elim (Bool-cases (leb r.min freq && leb freq r.max)) [
      | inl t ↦ ground (arith, whole, t)
      | inr t ↦ ground (arith, whole, t, test-IsWithin rs freq small (IsWithin-tail r rs freq t w))
    ]

wrapped :
    (rs : List FreqRange) (freq k : ℕ)
    → is_freq_supported rs (freq + k * 2 ^ 32) ≡ is_freq_supported rs freq
unfolding is_freq_supported
wrapped [] freq k = refl
wrapped (r ∷ rs) freq k =
    let low : (freq + k * 2 ^ 32) % 2 ^ 32 ≡ freq % 2 ^ 32 = omega arith in
    ground (arith, low, wrapped rs freq k)

-- The test lets a frequency of 32 bits pass exactly when it lies in one of the ranges of the pin, the ends
-- of the range included; and it lets a larger frequency pass exactly when its lower 32 bits do.
pub is_freq_supported-IsWithin :
    (rs : List FreqRange) (freq k : ℕ)
    → freq < 2 ^ 32
    → (is_freq_supported rs (freq + k * 2 ^ 32) ≡ true) ↔ IsWithin rs freq
is_freq_supported-IsWithin rs freq k small = (
  λ h. IsWithin-test rs freq small (sym (wrapped rs freq k) ∙ h),
  λ w. wrapped rs freq k ∙ test-IsWithin rs freq small w,
)
