-- ===== src/Dev/Ports/Eswitch.antt =====
-- The eswitch of a device of netdevsim/dev.c: which VF ports there are in which mode, and what the change
-- of the mode and of the number of VFs do to them.
use netdevsim_dkms.Base.{
  ℕ, ◌-◌, ◌^◌, ◌≡◌, ◌≤◌, refl, sym, ap, subst, ◌∙◌, Bool, true, false, not, ◌&&◌, List, [], arith,
  einval, ebusy, enomem, Errno, err, Status, success, ◌==◌, ltb, if◌then◌else◌, inl, inr, ◌⊎◌,
}
use netdevsim_dkms.Dev.Ports.{
  vf, Port, EswMode, legacy, switchdev, other_mode, Dev, PortAnswers, without_vfs,
  esw_legacy_enable, esw_switchdev_enable, is_legacy, is_switchdev, eswitch_mode_set, or_no_vfs,
  drv_configure_vfs,
}
use netdevsim_dkms.Dev.Ports.Loops.{
  vf_ports, stacked, with_ports, vf_ports-without_vfs, without_vfs-none, without_vfs-stacked,
  vf_ports-stacked_vf, add_ports-cases,
}

-- The VF ports that a device has: those of its VFs, if its eswitch forwards between them.
unfoldable pub vf_ports_of : EswMode → ℕ → List Port
vf_ports_of legacy num_vfs = []
vf_ports_of switchdev num_vfs = stacked vf 0 num_vfs []
vf_ports_of other_mode num_vfs = []

pub record IsSound (d : Dev) : Type 0 where
  pub ports : vf_ports d.port_list ≡ vf_ports_of d.esw_mode d.num_vfs
  pub room : d.num_vfs ≤ d.max_vfs
  pub limit : d.max_vfs ≤ 2 ^ 32 - 1 - 128

-- A device without VF ports is given those of its VFs, or is left as it is.
pub switchdev_enable-cases :
    (a : ℕ → PortAnswers) (d : Dev)
    → vf_ports d.port_list ≡ []
    → ((e : Errno) × (esw_switchdev_enable a d ≡ (err e, d)))
      ⊎ (esw_switchdev_enable a d ≡ (
        success,
        record d { port_list = stacked vf 0 d.num_vfs d.port_list; esw_mode = switchdev },
      ))
unfolding esw_switchdev_enable
switchdev_enable-cases a d none_there = elim (add_ports-cases vf a 0 d.num_vfs d) [
  | inl (e, k, q) ↦
      let gone = without_vfs-stacked 0 k d.port_list ∙ without_vfs-none d.port_list none_there in
      let same : ◌≡◌ {A = Status × Dev}
          (err e, with_ports d (without_vfs (stacked vf 0 k d.port_list))) (err e, d) =
        ap (λ (ps : List Port). (err e, with_ports d ps)) gone in
      inl (e, ground (arith, q, same))
  | inr q ↦ inr (ground (arith, q))
]

-- An operation that fails leaves the device as it was, and one that succeeds leaves it sound.
pub data IsKept (d : Dev) : Status × Dev → Type 0 where
  failed : (e : Errno) → IsKept d (err e, d)
  done : {d' : Dev} → IsSound d' → IsKept d (success, d')

pub IsKept-by : (d : Dev) (r r' : Status × Dev) → r ≡ r' → IsKept d r' → IsKept d r
IsKept-by d r r' e k = subst (IsKept d) (sym e) k

legacy-IsSound :
    (d : Dev) → d.num_vfs ≤ d.max_vfs → d.max_vfs ≤ 2 ^ 32 - 1 - 128 → IsSound (esw_legacy_enable d)
unfolding esw_legacy_enable vf_ports_of
legacy-IsSound d room limit = record {
  ports = vf_ports-without_vfs d.port_list;
  room = room;
  limit = limit;
}

switchdev-IsSound :
    (d : Dev)
    → vf_ports d.port_list ≡ []
    → d.num_vfs ≤ d.max_vfs
    → d.max_vfs ≤ 2 ^ 32 - 1 - 128
    → IsSound (record d { port_list = stacked vf 0 d.num_vfs d.port_list; esw_mode = switchdev })
unfolding vf_ports_of
switchdev-IsSound d none_there room limit = record {
  ports = vf_ports-stacked_vf 0 d.num_vfs d.port_list ∙ ap (stacked vf 0 d.num_vfs) none_there;
  room = room;
  limit = limit;
}

pub no_vf_ports :
    (d : Dev) → IsSound d → is_switchdev d.esw_mode ≡ false → vf_ports d.port_list ≡ []
unfolding vf_ports_of
no_vf_ports d s off = ground (arith, s.ports, off)

-- The guards of an operation, one after another.
pub IsKept-if :
    {d : Dev} {r r' : Status × Dev} (b : Bool)
    → (b ≡ true → IsKept d r)
    → (b ≡ false → IsKept d r')
    → IsKept d (if b then r else r')
IsKept-if true if_true if_false = if_true refl
IsKept-if false if_true if_false = if_false refl

pub mode_set-IsKept :
    (mode : EswMode) (a : ℕ → PortAnswers) (d : Dev)
    → IsSound d
    → IsKept d (eswitch_mode_set mode a d)
unfolding eswitch_mode_set
mode_set-IsKept legacy a d s =
    IsKept-if (is_legacy d.esw_mode) (λ e. done s) (λ e. done (legacy-IsSound d s.room s.limit))
mode_set-IsKept switchdev a d s =
    IsKept-if (is_switchdev d.esw_mode) (λ e. done s)
      (λ off.
        let none_there = no_vf_ports d s off in
        elim (switchdev_enable-cases a d none_there) [
          | inl (e, q) ↦ IsKept-by d (esw_switchdev_enable a d) (err e, d) q (failed e)
          | inr q ↦
              IsKept-by d (esw_switchdev_enable a d)
                (
                  success,
                  record d { port_list = stacked vf 0 d.num_vfs d.port_list; esw_mode = switchdev },
                )
                q (done (switchdev-IsSound d none_there s.room s.limit))
        ])
mode_set-IsKept other_mode a d s = failed einval

-- A number of VFs that is set while the eswitch is in another mode than switchdev.
off-IsSound :
    (num_vfs : ℕ) (d : Dev)
    → IsSound d
    → is_switchdev d.esw_mode ≡ false
    → ltb d.max_vfs num_vfs ≡ false
    → IsSound (record d { num_vfs = num_vfs })
unfolding vf_ports_of
off-IsSound num_vfs d s off fits = record {
  ports = ground (arith, s.ports, off);
  room = ground (arith, fits);
  limit = s.limit;
}

-- The ports of the VFs that are set up in the mode switchdev, after none.
enable-IsKept :
    (num_vfs : ℕ) (a : ℕ → PortAnswers) (d : Dev)
    → vf_ports d.port_list ≡ []
    → d.num_vfs ≡ 0
    → num_vfs ≤ d.max_vfs
    → d.max_vfs ≤ 2 ^ 32 - 1 - 128
    → IsKept d (or_no_vfs (esw_switchdev_enable a (record d { num_vfs = num_vfs })))
enable-IsKept num_vfs a d none_there zero_vfs room limit =
    let d' : Dev = record d { num_vfs = num_vfs } in
    let r = esw_switchdev_enable a d' in
    elim (switchdev_enable-cases a d' none_there) [
      | inl (e, q) ↦
          let same : ◌≡◌ {A = Status × Dev} (err e, record d' { num_vfs = 0 }) (err e, d) =
            ap (λ (n : ℕ). (err e, record d { num_vfs = n })) (sym zero_vfs) in
          IsKept-by d (or_no_vfs r) (err e, d) (ap or_no_vfs q ∙ same) (failed e)
      | inr q ↦
          IsKept-by d (or_no_vfs r)
            (
              success,
              record d' { port_list = stacked vf 0 num_vfs d.port_list; esw_mode = switchdev },
            )
            (ap or_no_vfs q) (done (switchdev-IsSound d' none_there room limit))
    ]

no_vfs_of : (mode : EswMode) → vf_ports_of mode 0 ≡ []
unfolding vf_ports_of stacked
no_vfs_of legacy = refl
no_vfs_of switchdev = refl
no_vfs_of other_mode = refl

pub no_vfs : (d : Dev) → IsSound d → d.num_vfs ≡ 0 → vf_ports d.port_list ≡ []
unfolding vf_ports_of stacked
no_vfs d s e = s.ports ∙ ap (vf_ports_of d.esw_mode) e ∙ no_vfs_of d.esw_mode

pub configure-IsKept :
    (num_vfs : ℕ) (a : ℕ → PortAnswers) (d : Dev)
    → IsSound d
    → IsKept d (drv_configure_vfs num_vfs a d)
unfolding drv_configure_vfs
configure-IsKept num_vfs a d s =
    let d' : Dev = record d { num_vfs = num_vfs } in
    IsKept-if (d.num_vfs == num_vfs) (λ e. done s)
      (λ differs.
        IsKept-if (not (d.num_vfs == 0) && not (num_vfs == 0)) (λ e. failed ebusy)
          (λ free.
            IsKept-if (ltb d.max_vfs num_vfs) (λ e. failed enomem)
              (λ fits.
                IsKept-if (not (is_switchdev d.esw_mode))
                  (λ off. done (off-IsSound num_vfs d s (ground (arith, off)) fits))
                  (λ on.
                    IsKept-if (num_vfs == 0)
                      (λ e. done (legacy-IsSound d' (ground (arith, fits)) s.limit))
                      (λ some_vfs.
                        let zero_vfs : d.num_vfs ≡ 0 = ground (arith, free, some_vfs) in
                        enable-IsKept num_vfs a d (no_vfs d s zero_vfs) zero_vfs
                          (ground (arith, fits)) s.limit)))))
