-- ===== src/Dev/Life/Reloading.antt =====
-- Reloads of a device of netdevsim/dev.c, which devlink makes, and its end.
use netdevsim_dkms.Base.{
  ◌≡◌, refl, sym, ap, subst, ◌∙◌, Bool, true, false, Option, none, some, List, [], ◌∷◌, ok, err,
  Status, success, if◌then◌else◌, Result-cases, inl, inr,
}
use netdevsim_dkms.Dev.Stages.{is_held}
use netdevsim_dkms.Dev.Life.{
  Stage, dpll, same_stage, drv_probe, reload_create, reload_destroy, reload_down, reload_up,
  drv_remove,
}
use netdevsim_dkms.Dev.Life.Backing.{
  probed_stages, bare_stages, reloaded_stages, drv_probe-ok, reload_create-err, reload_create-ok,
}

-- A device with what it holds and whether devlink noted that a reload failed.
pub record Device : Type 0 where
  pub held : Option (List Stage)
  pub reload_failed : Bool

abbrev pub is_err : Status → Bool
is_err (ok u) = false
is_err (err e) = true

abbrev pub up : Bool → (Stage → Status) → Option (List Stage) → Device
up fail_reload a none = record { held = none; reload_failed = true }
up fail_reload a (some h) = record {
  held = (reload_up fail_reload a h).1;
  reload_failed = is_err (reload_up fail_reload a h).0;
}

abbrev pub down : Bool → Bool → (Stage → Status) → Bool → List Stage → Device
down dont_allow fail_reload a failed h =
    if is_err (reload_down dont_allow failed h).0
    then record { held = (reload_down dont_allow failed h).1; reload_failed = failed }
    else up fail_reload a (reload_down dont_allow failed h).1

-- A reload of devlink: down and, unless that is refused, up, of which devlink notes whether it failed.
unfoldable pub reload : Bool → Bool → (Stage → Status) → Device → Device
reload dont_allow fail_reload a d = elim d.held [
  | none ↦ d
  | some h ↦ down dont_allow fail_reload a d.reload_failed h
]

-- What a device holds after a reload, and in its life.
pub data IsReloaded (pci : Bool) : Device → Type 0 where
  reloaded : IsReloaded pci (record { held = some (reloaded_stages pci); reload_failed = false })
  failed : IsReloaded pci (record { held = some (bare_stages pci); reload_failed = true })

pub data IsAlive (pci : Bool) : Device → Type 0 where
  probed :
      (wpc : Bool)
      → IsAlive pci (record { held = some (probed_stages pci wpc); reload_failed = false })
  later : {d : Device} → IsReloaded pci d → IsAlive pci d

-- A device as its probe leaves it.
abbrev pub probed_device : Bool → Bool → (Stage → Status) → Device
probed_device pci wpc a = record { held = (drv_probe pci wpc a).1; reload_failed = false }

device_of : Status → Option (List Stage) → Device
device_of st h = record { held = h; reload_failed = is_err st }

destroyed : (pci wpc : Bool) → reload_destroy false (probed_stages pci wpc) ≡ some (bare_stages pci)
unfolding reload_destroy
destroyed true true = refl
destroyed true false = refl
destroyed false true = refl
destroyed false false = refl

destroyed_again : (pci : Bool) → reload_destroy false (reloaded_stages pci) ≡ some (bare_stages pci)
unfolding reload_destroy
destroyed_again true = refl
destroyed_again false = refl

up-IsReloaded :
    (pci fail_reload : Bool) (a : Stage → Status)
    → IsReloaded pci (up fail_reload a (some (bare_stages pci)))
unfolding reload_up device_of
up-IsReloaded pci true a = failed
up-IsReloaded pci false a =
    let r = reload_create a (bare_stages pci) in
    elim (Result-cases r.0) [
      | inl (e, q) ↦
          subst (IsReloaded pci)
            (sym (
              ap (λ (st : Status). device_of st r.1) q
              ∙ ap (device_of (err e)) (reload_create-err pci a e q)))
            failed
      | inr (u, q) ↦
          subst (IsReloaded pci)
            (sym (
              ap (λ (st : Status). device_of st r.1) q
              ∙ ap (device_of success) (reload_create-ok pci a q)))
            reloaded
    ]

-- A reload of a device that holds `h`, of which `reload_destroy` leaves the bare device.
down-IsAlive :
    (pci dont_allow fail_reload flag : Bool) (a : Stage → Status) (h : List Stage)
    → reload_destroy flag h ≡ some (bare_stages pci)
    → IsAlive pci (record { held = some h; reload_failed = flag })
    → IsAlive pci (down dont_allow fail_reload a flag h)
unfolding reload_down
down-IsAlive pci true fail_reload flag a h gone alive = alive
down-IsAlive pci false fail_reload flag a h gone alive = later (
    subst (λ (r : Option (List Stage)). IsReloaded pci (up fail_reload a r)) (sym gone)
      (up-IsReloaded pci fail_reload a))

reload-IsAlive :
    (pci dont_allow fail_reload : Bool) (a : Stage → Status) (d : Device)
    → IsAlive pci d
    → IsAlive pci (reload dont_allow fail_reload a d)
unfolding reload reload_destroy
reload-IsAlive pci dont_allow fail_reload a d (probed wpc) =
    down-IsAlive pci dont_allow fail_reload false a (probed_stages pci wpc) (destroyed pci wpc)
      (probed wpc)
reload-IsAlive pci dont_allow fail_reload a d (later reloaded) =
    down-IsAlive pci dont_allow fail_reload false a (reloaded_stages pci) (destroyed_again pci)
      (later reloaded)
reload-IsAlive pci dont_allow fail_reload a d (later failed) =
    down-IsAlive pci dont_allow fail_reload true a (bare_stages pci) refl (later failed)

-- A reload that the user asks for: whether the two switches forbid it or let it fail, and what the callees
-- answer.
pub record Request : Type 0 where
  pub dont_allow_reload : Bool
  pub fail_reload : Bool
  pub answers : Stage → Status

unfoldable pub reloads : List Request → Device → Device
reloads [] d = d
reloads (q ∷ qs) d = reloads qs (reload q.dont_allow_reload q.fail_reload q.answers d)

reloads-IsAlive :
    (pci : Bool) (qs : List Request) (d : Device) → IsAlive pci d → IsAlive pci (reloads qs d)
unfolding reloads
reloads-IsAlive pci [] d alive = alive
reloads-IsAlive pci (q ∷ qs) d alive =
    reloads-IsAlive pci qs (reload q.dont_allow_reload q.fail_reload q.answers d)
      (reload-IsAlive pci q.dont_allow_reload q.fail_reload q.answers d alive)

abbrev pub removed : Bool → Device → Option (List Stage)
removed pci d = elim d.held [ none ↦ none | some h ↦ drv_remove pci d.reload_failed h ]

removed-nothing : (pci : Bool) (d : Device) → IsAlive pci d → removed pci d ≡ some []
unfolding drv_remove reload_destroy
removed-nothing true d (probed true) = refl
removed-nothing true d (probed false) = refl
removed-nothing true d (later reloaded) = refl
removed-nothing true d (later failed) = refl
removed-nothing false d (probed true) = refl
removed-nothing false d (probed false) = refl
removed-nothing false d (later reloaded) = refl
removed-nothing false d (later failed) = refl

-- A device that was probed, reloaded any number of times, where reloads may be refused or fail at any
-- step, and then removed holds nothing any more, and nothing was released that was not held.
pub drv_remove-reloads :
    (pci wpc : Bool) (a : Stage → Status) (qs : List Request)
    → (drv_probe pci wpc a).0 ≡ success
    → removed pci (reloads qs (probed_device pci wpc a)) ≡ some []
drv_remove-reloads pci wpc a qs h =
    let all = drv_probe-ok pci wpc a h in
    let alive =
      subst (λ (r : Option (List Stage)). IsAlive pci (record { held = r; reload_failed = false }))
        (sym all) (probed wpc) in
    removed-nothing pci (reloads qs (probed_device pci wpc a))
      (reloads-IsAlive pci qs (probed_device pci wpc a) alive)

abbrev pub has_dpll : Device → Bool
has_dpll d = elim d.held [ none ↦ false | some h ↦ is_held same_stage dpll h ]

reloaded-has_dpll : (pci : Bool) (d : Device) → IsReloaded pci d → has_dpll d ≡ false
reloaded-has_dpll true d reloaded = refl
reloaded-has_dpll true d failed = refl
reloaded-has_dpll false d reloaded = refl
reloaded-has_dpll false d failed = refl

probed-has_dpll :
    (pci fail_reload : Bool) (a : Stage → Status)
    → let d : Device = record { held = some (probed_stages pci true); reload_failed = false } in
      (has_dpll d ≡ true) × (has_dpll (reload false fail_reload a d) ≡ false)
unfolding reload reload_down
probed-has_dpll true fail_reload a = (
  refl,
  ap (λ (r : Option (List Stage)). has_dpll (up fail_reload a r)) (destroyed true true)
      ∙ reloaded-has_dpll true (up fail_reload a (some (bare_stages true)))
          (up-IsReloaded true fail_reload a),
)
probed-has_dpll false fail_reload a = (
  refl,
  ap (λ (r : Option (List Stage)). has_dpll (up fail_reload a r)) (destroyed false true)
      ∙ reloaded-has_dpll false (up fail_reload a (some (bare_stages false)))
          (up-IsReloaded false fail_reload a),
)

-- A WPC device that was probed has a DPLL, and has none after a reload that is not refused, whether the
-- reload succeeds or fails.
pub reload-dpll :
    (pci fail_reload : Bool) (probe_answers answers : Stage → Status)
    → (drv_probe pci true probe_answers).0 ≡ success
    → (has_dpll (probed_device pci true probe_answers) ≡ true)
      × (has_dpll (reload false fail_reload answers (probed_device pci true probe_answers)) ≡ false)
reload-dpll pci fail_reload probe_answers answers h =
    subst
      (λ (r : Option (List Stage)).
        (has_dpll (record { held = r; reload_failed = false }) ≡ true)
        × (has_dpll (reload false fail_reload answers (record { held = r; reload_failed = false }))
            ≡ false))
      (sym (drv_probe-ok pci true probe_answers h)) (probed-has_dpll pci fail_reload answers)
