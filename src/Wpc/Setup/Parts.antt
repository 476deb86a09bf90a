-- ===== src/Wpc/Setup/Parts.antt =====
-- The parts of `nsim_dpll_init` of netdevsim/dpll.c: what each leaves held, and how each backs out.
use netdevsim_dkms.Base.{
  ℕ, zero, suc, ◌≡◌, refl, sym, ap, subst, ◌∙◌, Bool, true, false, ◌⊎◌, inl, inr, Option, some,
  List, [], ◌∷◌, arith, Errno, err, Status, success, Result-cases,
}
use netdevsim_dkms.Dev.Stages.{BacksOut, all_held, set_up, set_up-err, set_up-ok}
use netdevsim_dkms.Wpc.Setup.{
  DpllStage, ntf_timer, ntf_work, gnss_dev, gnss_dev_registered, npin, port_pin, port_registered,
  netdev_pin, let_go, cleanup_port_pins, err_ext_cleanup, err_ports_cleanup, first_stages,
  timers_started, port_stages, gnss_stages, file_stages, arm, answered, go_on, gnss_init,
}
use netdevsim_dkms.Wpc.Setup.Stacks.{
  stacked, top, let_go-stacked, let_go-arm, cleanup-stacked, on_top,
}

-- What is held before the timer of notifications starts, with the pins of the ports, and with the GNSS
-- device.
abbrev pub first_held : List DpllStage
first_held = all_held first_stages []

abbrev pub ports_held : ℕ → List DpllStage
ports_held n = stacked 0 n (timers_started first_held)

abbrev pub gnss_held : ℕ → List DpllStage
gnss_held n = gnss_dev_registered ∷ gnss_dev ∷ ports_held n

first-BacksOut : BacksOut first_stages [] []
unfolding BacksOut
first-BacksOut = (
  refl,
  (
    refl,
    (
      refl,
      (
        refl,
        (refl, (refl, (refl, (refl, (refl, (refl, (refl, (refl, (refl, (refl, (refl, tt))))))))))),
      ),
    ),
  ),
)

err_ext_cleanup-first :
    (armed : Bool) → err_ext_cleanup 4 (some (arm armed first_held)) ≡ some (arm armed [])
err_ext_cleanup-first true = refl
err_ext_cleanup-first false = refl

-- The timer of notifications and its work are stopped below the pins of the ports.
pub stop_timer :
    (n : ℕ) → let_go ntf_timer (some (ports_held n)) ≡ some (stacked 0 n (ntf_work ∷ first_held))
stop_timer n =
    let_go-stacked ntf_timer 0 n (timers_started first_held) (ntf_work ∷ first_held) refl refl

pub stop_work :
    (n : ℕ)
    → let_go ntf_work (some (stacked 0 n (ntf_work ∷ first_held))) ≡ some (stacked 0 n first_held)
stop_work n = let_go-stacked ntf_work 0 n (ntf_work ∷ first_held) first_held refl refl

ports_cleanup :
    (armed : Bool) (n : ℕ)
    → err_ports_cleanup n (some (arm armed (ports_held n))) ≡ some (arm armed [])
ports_cleanup armed n =
    ap (λ h. err_ext_cleanup 4 (cleanup_port_pins 0 n (let_go ntf_work h)))
      (let_go-arm armed ntf_timer (ports_held n) (stacked 0 n (ntf_work ∷ first_held)) refl
        (stop_timer n))
    ∙ ap (λ h. err_ext_cleanup 4 (cleanup_port_pins 0 n h))
        (let_go-arm armed ntf_work (stacked 0 n (ntf_work ∷ first_held)) (stacked 0 n first_held)
          refl (stop_work n))
    ∙ ap (err_ext_cleanup 4) (cleanup-stacked armed 0 n first_held)
    ∙ err_ext_cleanup-first armed

ports-BacksOut : (i n : ℕ) → BacksOut (port_stages i n) (ports_held i) []
unfolding BacksOut
ports-BacksOut i zero = tt
ports-BacksOut i (suc n) =
    let h = ports_held i in
    let clean = ports_cleanup false i in
    let one = top (npin i) h (ground arith) in
    let two = top (port_pin i) (npin i ∷ h) (ground arith) in
    let three = top (port_registered i) (port_pin i ∷ npin i ∷ h) (ground arith) in
    let no_npin = ap (err_ports_cleanup i) one ∙ clean in
    let no_pin = ap (λ x. err_ports_cleanup i (let_go (npin i) x)) two ∙ no_npin in
    (
      clean,
      (
        no_npin,
        (
          no_pin,
          (
            ap (λ x. err_ports_cleanup i (let_go (npin i) (let_go (port_pin i) x))) three ∙ no_pin,
            subst (λ x. BacksOut (port_stages (suc i) n) x [])
                (sym (on_top i 0 i (timers_started first_held) (omega arith)))
                (ports-BacksOut (suc i) n),
          ),
        ),
      ),
    )

ports-all_held : (i n : ℕ) (xs : List DpllStage) → all_held (port_stages i n) xs ≡ stacked i n xs
unfolding stacked
ports-all_held i zero xs = refl
ports-all_held i (suc n) xs =
    ports-all_held (suc i) n (netdev_pin i ∷ port_registered i ∷ port_pin i ∷ npin i ∷ xs)

gnss-BacksOut : (n : ℕ) → BacksOut (gnss_stages n) (ports_held n) []
unfolding BacksOut
gnss-BacksOut n = (ports_cleanup false n, (ports_cleanup false n, tt))

gnss_cleanup :
    (armed : Bool) (n : ℕ)
    → err_ports_cleanup n
        (let_go gnss_dev (let_go gnss_dev_registered (some (arm armed (gnss_held n)))))
      ≡ some (arm armed [])
gnss_cleanup true n = ports_cleanup true n
gnss_cleanup false n = ports_cleanup false n

pub file-BacksOut :
    (armed : Bool) (n : ℕ) → BacksOut (file_stages n) (arm armed (gnss_held n)) (arm armed [])
unfolding BacksOut
file-BacksOut armed n = (gnss_cleanup armed n, (gnss_cleanup armed n, tt))

-- A part that backs out fails and leaves the same, or everything of it is held.
set_up-cases :
    (stages : List (DpllStage × (Option (List DpllStage) → Option (List DpllStage))))
    (a : DpllStage → Status) (held left : List DpllStage)
    → BacksOut stages held left
    → ((e : Errno) × (set_up stages a held ≡ (err e, some left)))
      ⊎ (set_up stages a held ≡ (success, some (all_held stages held)))
set_up-cases stages a held left out = elim (Result-cases (set_up stages a held).0) [
  | inl (e, q) ↦ inl (e, λ i. (q i, set_up-err stages a held left e out q i))
  | inr (u, q) ↦ inr (λ i. (q i, set_up-ok stages a held q i))
]

ports_set_up-cases :
    (n : ℕ) (a : DpllStage → Status)
    → let run = set_up (port_stages 0 n) a (timers_started first_held) in
      ((e : Errno) × (run ≡ (err e, some []))) ⊎ (run ≡ (success, some (ports_held n)))
unfolding stacked
ports_set_up-cases n a =
    let base = timers_started first_held in
    elim (set_up-cases (port_stages 0 n) a base [] (ports-BacksOut 0 n)) [
      | inl (e, p) ↦ inl (e, p)
      | inr p ↦ inr (p ∙ ap (λ h. (success, some h)) (ports-all_held 0 n base))
    ]

-- What `gnss_init` does with the first stages, and with the ports.
abbrev on_ports :
    ℕ → (DpllStage → Status) → Status × Option (List DpllStage) → Status × Option (List DpllStage)
on_ports n a r =
    go_on r
      (λ h. go_on (set_up (port_stages 0 n) a (timers_started h)) (λ x. set_up (gnss_stages n) a x))

abbrev on_gnss :
    ℕ → (DpllStage → Status) → Status × Option (List DpllStage) → Status × Option (List DpllStage)
on_gnss n a r = go_on r (λ x. set_up (gnss_stages n) a x)

pub gnss_init-cases :
    (n : ℕ) (a : DpllStage → Status)
    → ((e : Errno) × (gnss_init n a ≡ (err e, some [])))
      ⊎ (gnss_init n a ≡ (success, some (gnss_held n)))
unfolding gnss_init
gnss_init-cases n a = elim (set_up-cases first_stages (answered a) [] [] first-BacksOut) [
  | inl (e, q) ↦ inl (e, ap (on_ports n (answered a)) q)
  | inr q ↦ elim (ports_set_up-cases n (answered a)) [
    | inl (e, p) ↦ inl (e, ap (on_ports n (answered a)) q ∙ ap (on_gnss n (answered a)) p)
    | inr p ↦ elim (set_up-cases (gnss_stages n) (answered a) (ports_held n) [] (gnss-BacksOut n)) [
      | inl (e, g) ↦ inl (e, ap (on_ports n (answered a)) q ∙ ap (on_gnss n (answered a)) p ∙ g)
      | inr g ↦ inr (ap (on_ports n (answered a)) q ∙ ap (on_gnss n (answered a)) p ∙ g)
    ]
  ]
]
