-- ===== src/Dev/Ports/Back.antt =====
-- Changes of the eswitch and of the VFs of a device of netdevsim/dev.c that are taken back.
use netdevsim_dkms.Base.{ℕ, ◌≡◌, ◌<◌, sym, ap, ◌∙◌, List, [], arith, Status, success, inl, inr}
use netdevsim_dkms.Dev.Ports.{
  vf, Port, EswMode, legacy, switchdev, Dev, PortAnswers, eswitch_mode_set, drv_configure_vfs,
  esw_legacy_enable, without_vfs,
}
use netdevsim_dkms.Dev.Ports.Loops.{vf_ports, stacked, without_vfs-stacked, without_vfs-none}
use netdevsim_dkms.Dev.Ports.Eswitch.{vf_ports_of, IsSound, switchdev_enable-cases, no_vfs}

-- A device in the mode legacy that was set to switchdev is the same once it is set to legacy again.
pub mode_set-back :
    (a b : ℕ → PortAnswers) (d : Dev)
    → IsSound d
    → d.esw_mode ≡ legacy
    → (eswitch_mode_set switchdev a d).0 ≡ success
    → eswitch_mode_set legacy b (eswitch_mode_set switchdev a d).1 ≡ (success, d)
unfolding eswitch_mode_set esw_legacy_enable vf_ports_of
mode_set-back a b d s l h =
    let none_there : vf_ports d.port_list ≡ [] = s.ports ∙ ap (λ m. vf_ports_of m d.num_vfs) l in
    elim (switchdev_enable-cases a d none_there) [
      | inl (e, q) ↦ ground (arith, h, l, q)
      | inr q ↦
          let gone =
            without_vfs-stacked 0 d.num_vfs d.port_list ∙ without_vfs-none d.port_list none_there in
          let same : ◌≡◌ {A = Status × Dev}
              (
                success,
                record d {
                  port_list = without_vfs (stacked vf 0 d.num_vfs d.port_list);
                  esw_mode = legacy;
                },
              )
              (success, d) =
            ap (λ (ps : List Port). (success, record d { port_list = ps; esw_mode = legacy })) gone
            ∙ ap (λ (m : EswMode). (success, record d { esw_mode = m })) (sym l) in
          ground (arith, h, l, q, same)
    ]

-- A device in the mode switchdev whose VFs are set up and then removed has the ports it had before, and
-- is in the mode legacy.
pub configure_vfs-back :
    (n : ℕ) (a b : ℕ → PortAnswers) (d : Dev)
    → IsSound d
    → d.esw_mode ≡ switchdev
    → d.num_vfs ≡ 0
    → 0 < n
    → (drv_configure_vfs n a d).0 ≡ success
    → drv_configure_vfs 0 b (drv_configure_vfs n a d).1 ≡ (success, record d { esw_mode = legacy })
unfolding drv_configure_vfs esw_legacy_enable
configure_vfs-back n a b d s sw zero_vfs some_vfs h =
    let d' : Dev = record d { num_vfs = n } in
    let none_there = no_vfs d s zero_vfs in
    elim (switchdev_enable-cases a d' none_there) [
      | inl (e, q) ↦ ground (arith, h, sw, zero_vfs, some_vfs, q)
      | inr q ↦
          let gone =
            without_vfs-stacked 0 n d.port_list ∙ without_vfs-none d.port_list none_there in
          let same : ◌≡◌ {A = Status × Dev}
              (
                success,
                record d {
                  port_list = without_vfs (stacked vf 0 n d.port_list);
                  esw_mode = legacy;
                  num_vfs = 0;
                },
              )
              (success, record d { esw_mode = legacy }) =
            ap
              (λ (ps : List Port).
                (success, record d { port_list = ps; esw_mode = legacy; num_vfs = 0 }))
              gone
            ∙ ap (λ (k : ℕ). (success, record d { esw_mode = legacy; num_vfs = k }))
                (sym zero_vfs) in
          ground (arith, h, sw, zero_vfs, some_vfs, q, same)
    ]
