-- ===== src/Wpc/Setup/Stacks.antt =====
-- The pins of ports on top of what a DPLL holds, and their removal in the order in which they were added,
-- by `nsim_dpll_cleanup_port_pins` of netdevsim/dpll.c.
use netdevsim_dkms.Base.{
  ℕ, zero, suc, ◌+◌, ◌≡◌, refl, ap, ◌∙◌, Bool, true, false, ◌||◌, ltb, some, List, ◌∷◌, arith,
  Bool-cases, inl, inr,
}
use netdevsim_dkms.Dev.Stages.{is_held}
use netdevsim_dkms.Wpc.Setup.{
  DpllStage, npin, port_pin, port_registered, netdev_pin, place, same_dpll_stage, let_go,
  cleanup_port_pins, arm, holdover_timer,
}

-- The pins of the ports `i` to `i + n - 1`, added in this order.
unfoldable pub stacked : ℕ → ℕ → List DpllStage → List DpllStage
stacked i zero h = h
stacked i (suc n) h = stacked (suc i) n (netdev_pin i ∷ port_registered i ∷ port_pin i ∷ npin i ∷ h)

pub skip :
    (s x : DpllStage) (xs ys : List DpllStage)
    → same_dpll_stage s x ≡ false
    → let_go s (some xs) ≡ some ys
    → let_go s (some (x ∷ xs)) ≡ some (x ∷ ys)
skip s x xs ys other h = elim (Bool-cases (is_held same_dpll_stage s xs)) [
  | inl e ↦ ground (arith, h, other, e)
  | inr e ↦ ground (arith, h, other, e)
]

pub top :
    (s : DpllStage) (xs : List DpllStage)
    → same_dpll_stage s s ≡ true
    → let_go s (some (s ∷ xs)) ≡ some xs
top s xs same = ground (arith, same)

-- A stage of no port from the `m`-th on is let go below the pins of these ports.
pub let_go-stacked :
    (s : DpllStage) (m n : ℕ) (xs ys : List DpllStage)
    → (ltb (place s).0 16 || ltb (place s).1 m) ≡ true
    → let_go s (some xs) ≡ some ys
    → let_go s (some (stacked m n xs)) ≡ some (stacked m n ys)
unfolding stacked
let_go-stacked s m zero xs ys below h = h
let_go-stacked s m (suc n) xs ys below h =
    let_go-stacked s (suc m) n (netdev_pin m ∷ port_registered m ∷ port_pin m ∷ npin m ∷ xs)
      (netdev_pin m ∷ port_registered m ∷ port_pin m ∷ npin m ∷ ys) (ground (arith, below))
      (skip s (netdev_pin m) (port_registered m ∷ port_pin m ∷ npin m ∷ xs)
        (port_registered m ∷ port_pin m ∷ npin m ∷ ys) (ground (arith, below))
        (skip s (port_registered m) (port_pin m ∷ npin m ∷ xs) (port_pin m ∷ npin m ∷ ys)
          (ground (arith, below))
          (skip s (port_pin m) (npin m ∷ xs) (npin m ∷ ys) (ground (arith, below))
            (skip s (npin m) xs ys (ground (arith, below)) h))))

-- One pin of the bottom port of a stack.
bottom :
    (s : DpllStage) (i n : ℕ) (xs : List DpllStage)
    → (place s).1 ≡ i
    → let_go s (some (stacked (suc i) n (s ∷ xs))) ≡ some (stacked (suc i) n xs)
bottom s i n xs at =
    let_go-stacked s (suc i) n (s ∷ xs) xs (ground (arith, at)) (top s xs (ground arith))

-- A stage is let go below the holdover timer.
pub let_go-arm :
    (armed : Bool) (s : DpllStage) (xs ys : List DpllStage)
    → same_dpll_stage s holdover_timer ≡ false
    → let_go s (some xs) ≡ some ys
    → let_go s (some (arm armed xs)) ≡ some (arm armed ys)
let_go-arm true s xs ys other h = skip s holdover_timer xs ys other h
let_go-arm false s xs ys other h = h

pub cleanup-stacked :
    (armed : Bool) (i n : ℕ) (xs : List DpllStage)
    → cleanup_port_pins i n (some (arm armed (stacked i n xs))) ≡ some (arm armed xs)
unfolding stacked
cleanup-stacked armed i zero xs = refl
cleanup-stacked armed i (suc n) xs =
    ap
      (λ h.
        cleanup_port_pins (suc i) n
          (let_go (npin i) (let_go (port_pin i) (let_go (port_registered i) h))))
      (next (netdev_pin i) (port_registered i ∷ port_pin i ∷ npin i ∷ xs) refl refl)
    ∙ ap (λ h. cleanup_port_pins (suc i) n (let_go (npin i) (let_go (port_pin i) h)))
        (next (port_registered i) (port_pin i ∷ npin i ∷ xs) refl refl)
    ∙ ap (λ h. cleanup_port_pins (suc i) n (let_go (npin i) h))
        (next (port_pin i) (npin i ∷ xs) refl refl)
    ∙ ap (cleanup_port_pins (suc i) n) (next (npin i) xs refl refl)
    ∙ cleanup-stacked armed (suc i) n xs
  where
    next :
        (s : DpllStage) (ys : List DpllStage)
        → (place s).1 ≡ i
        → same_dpll_stage s holdover_timer ≡ false
        → let_go s (some (arm armed (stacked (suc i) n (s ∷ ys))))
          ≡ some (arm armed (stacked (suc i) n ys))
    next s ys at other =
        let_go-arm armed s (stacked (suc i) n (s ∷ ys)) (stacked (suc i) n ys) other
          (bottom s i n ys at)

-- The pins of one more port on top of a stack.
pub on_top :
    (i m n : ℕ) (xs : List DpllStage)
    → i ≡ m + n
    → netdev_pin i ∷ port_registered i ∷ port_pin i ∷ npin i ∷ stacked m n xs ≡ stacked m (suc n) xs
unfolding stacked
on_top i m zero xs e =
    let same : i ≡ m = omega (arith, e) in
    ap (λ j. netdev_pin j ∷ port_registered j ∷ port_pin j ∷ npin j ∷ xs) same
on_top i m (suc n) xs e =
    on_top i (suc m) n (netdev_pin m ∷ port_registered m ∷ port_pin m ∷ npin m ∷ xs)
      (omega (arith, e))

-- The holdover timer is not among the pins of ports.
pub not_held-stacked :
    (i n : ℕ) (xs : List DpllStage)
    → is_held same_dpll_stage holdover_timer xs ≡ false
    → is_held same_dpll_stage holdover_timer (stacked i n xs) ≡ false
unfolding stacked
not_held-stacked i zero xs h = h
not_held-stacked i (suc n) xs h =
    not_held-stacked (suc i) n (netdev_pin i ∷ port_registered i ∷ port_pin i ∷ npin i ∷ xs) h
