-- ===== src/Dev/Ports/Steps.antt =====
-- Histories of changes to the ports, the eswitch and the VFs of a device of netdevsim/dev.c.
use netdevsim_dkms.Base.{
  ℕ, zero, suc, ◌+◌, ◌-◌, ◌^◌, ◌≡◌, ◌≤◌, ◌<◌, refl, sym, ap, subst, ◌∙◌, Bool, true, not, ◌&&◌,
  List, [], ◌∷◌, arith, erange, ebusy, enomem, eexist, enoent, Errno, err, Status, success, ◌==◌,
  ltb, inl, inr, ◌⊎◌,
}
use netdevsim_dkms.Dev.Ports.{
  pf, vf, Port, EswMode, legacy, switchdev, other_mode, Dev, dev_port_index, PortAnswers, port_add,
  port_del_all, port_add_all, has_index, del_index, drv_port_add, drv_port_del, eswitch_mode_set,
  drv_configure_vfs, max_vfs_write,
}
use netdevsim_dkms.Dev.Ports.Loops.{
  vf_ports, stacked, with_ports, port_add-cases, add_ports-cases, vf_ports-stacked_pf,
}
use netdevsim_dkms.Dev.Ports.Eswitch.{
  vf_ports_of, IsSound, IsKept, failed, done, IsKept-by, IsKept-if, mode_set-IsKept,
  configure-IsKept,
}

-- The files on the bus only name PF ports.
pub data Op : Type 0 where
  mode_set : EswMode → (ℕ → PortAnswers) → Op
  configure_vfs : ℕ → (ℕ → PortAnswers) → Op
  new_port : ℕ → PortAnswers → Op
  del_port : ℕ → Op
  set_max_vfs : ℕ → Bool → Op

unfoldable pub step : Op → Dev → Status × Dev
step (mode_set mode a) d = eswitch_mode_set mode a d
step (configure_vfs n a) d = drv_configure_vfs n a d
step (new_port i a) d = drv_port_add pf i a d
step (del_port i) d = drv_port_del pf i d
step (set_max_vfs n mem) d = max_vfs_write n mem d

-- Whether the port deleted, if any, is named by an index that no VF port has.
abbrev pub is_in_range : Op → Bool
is_in_range (mode_set mode a) = true
is_in_range (configure_vfs n a) = true
is_in_range (new_port i a) = true
is_in_range (del_port i) = ltb i 128
is_in_range (set_max_vfs n mem) = true

abbrev is_high : ℕ → Port → Bool
is_high i p = not (p.port_index == i)

-- No port of a list has an index.
unfoldable avoids : ℕ → List Port → Bool
avoids i [] = true
avoids i (p ∷ ps) = is_high i p && avoids i ps

avoids-stacked :
    (i k n : ℕ) (ps : List Port)
    → i < 128
    → k + n ≤ 2 ^ 32 - 1 - 128
    → avoids i ps ≡ true
    → avoids i (stacked vf k n ps) ≡ true
unfolding avoids stacked
avoids-stacked i k zero ps low limit h = h
avoids-stacked i k (suc n) ps low limit h =
    avoids-stacked i (suc k) n (record { port_index = dev_port_index vf k; port_type = vf } ∷ ps)
      low (omega (arith, limit)) (ground (arith, h, low, limit))

-- The deletion of a port whose index no VF port has.
vf_ports-del_index :
    (i : ℕ) (ps : List Port)
    → avoids i (vf_ports ps) ≡ true
    → vf_ports (del_index i ps) ≡ vf_ports ps
unfolding vf_ports del_index avoids
vf_ports-del_index i [] h = refl
vf_ports-del_index i (p ∷ ps) h = ground (arith, h, vf_ports-del_index i ps)

avoids-vf_ports_of :
    (i n : ℕ) (mode : EswMode)
    → i < 128
    → n ≤ 2 ^ 32 - 1 - 128
    → avoids i (vf_ports_of mode n) ≡ true
unfolding vf_ports_of avoids
avoids-vf_ports_of i n legacy low limit = refl
avoids-vf_ports_of i n switchdev low limit = avoids-stacked i 0 n [] low (omega (arith, limit)) refl
avoids-vf_ports_of i n other_mode low limit = refl

new_port-IsKept : (i : ℕ) (a : PortAnswers) (d : Dev) → IsSound d → IsKept d (drv_port_add pf i a d)
unfolding drv_port_add
new_port-IsKept i a d s =
    IsKept-if (has_index i d.port_list) (λ e. failed eexist)
      (λ free. elim (port_add-cases pf i a d) [
        | inl (e, q) ↦ IsKept-by d (port_add pf i a d) (err e, d) q (failed e)
        | inr q ↦
            IsKept-by d (port_add pf i a d) (success, with_ports d (stacked pf i 1 d.port_list)) q
              (done (record {
                ports = vf_ports-stacked_pf i 1 d.port_list ∙ s.ports;
                room = s.room;
                limit = s.limit;
              }))
      ])

del_port-IsKept : (i : ℕ) (d : Dev) → i < 128 → IsSound d → IsKept d (drv_port_del pf i d)
unfolding drv_port_del
del_port-IsKept i d low s =
    let away = avoids-vf_ports_of i d.num_vfs d.esw_mode low (omega (arith, s.room, s.limit)) in
    IsKept-if (has_index i d.port_list)
      (λ e. done (record {
        ports = vf_ports-del_index i d.port_list (ap (avoids i) s.ports ∙ away) ∙ s.ports;
        room = s.room;
        limit = s.limit;
      }))
      (λ e. failed enoent)

max_vfs-IsKept : (n : ℕ) (mem : Bool) (d : Dev) → IsSound d → IsKept d (max_vfs_write n mem d)
unfolding max_vfs_write
max_vfs-IsKept n mem d s =
    IsKept-if (ltb (2 ^ 32 - 1 - 128) n) (λ e. failed erange)
      (λ fits.
        IsKept-if (not mem) (λ e. failed enomem)
          (λ m.
            IsKept-if (not (d.num_vfs == 0)) (λ e. failed ebusy)
              (λ free. done (record {
                ports = s.ports;
                room = ground (arith, free);
                limit = ground (arith, fits);
              }))))

step-IsKept : (op : Op) (d : Dev) → is_in_range op ≡ true → IsSound d → IsKept d (step op d)
unfolding step
step-IsKept (mode_set mode a) d r s = mode_set-IsKept mode a d s
step-IsKept (configure_vfs n a) d r s = configure-IsKept n a d s
step-IsKept (new_port i a) d r s = new_port-IsKept i a d s
step-IsKept (del_port i) d r s = del_port-IsKept i d (ground (arith, r)) s
step-IsKept (set_max_vfs n mem) d r s = max_vfs-IsKept n mem d s

kept_err : (d : Dev) (r : Status × Dev) (e : Errno) → IsKept d r → r.0 ≡ err e → r.1 ≡ d
kept_err d r e (failed x) h = refl
kept_err d r e (done s) h = ground (arith, h)

kept-IsSound : (d : Dev) (r : Status × Dev) → IsSound d → IsKept d r → IsSound r.1
kept-IsSound d r s (failed x) = s
kept-IsSound d r s (done s') = s'

-- An operation that fails, as a change of the eswitch's mode or of the number of VFs of which any step may
-- fail, leaves the ports, the mode and the VFs of a sound device as they were. The operation is not the
-- deletion of a port with an index from 128 on.
pub step-err :
    (op : Op) (d : Dev) (e : Errno)
    → is_in_range op ≡ true
    → IsSound d
    → (step op d).0 ≡ err e
    → (step op d).1 ≡ d
step-err op d e r s h = kept_err d (step op d) e (step-IsKept op d r s) h

unfoldable pub run : List Op → Dev → Dev
run [] d = d
run (op ∷ ops) d = run ops (step op d).1

abbrev pub are_in_range : List Op → Bool
are_in_range [] = true
are_in_range (op ∷ ops) = is_in_range op && are_in_range ops

run-IsSound : (ops : List Op) (d : Dev) → are_in_range ops ≡ true → IsSound d → IsSound (run ops d)
unfolding run
run-IsSound [] d r s = s
run-IsSound (op ∷ ops) d r s =
    run-IsSound ops (step op d).1 (ground (arith, r))
      (kept-IsSound d (step op d) s (step-IsKept op d (ground (arith, r)) s))

-- A device of the bus before its ports are added.
abbrev pub new_dev : Dev
new_dev = record { port_list = []; esw_mode = legacy; num_vfs = 0; max_vfs = 4 }

-- Adding the ports of a new device gives the ports 0 to `port_count` - 1 or, where one fails, none.
pub port_add_all-cases :
    (a : ℕ → PortAnswers) (port_count : ℕ)
    → ((e : Errno) × (port_add_all a port_count new_dev ≡ (err e, new_dev)))
      ⊎ (port_add_all a port_count new_dev
          ≡ (success, with_ports new_dev (stacked pf 0 port_count [])))
unfolding port_add_all port_del_all
port_add_all-cases a port_count = elim (add_ports-cases pf a 0 port_count new_dev) [
  | inl (e, k, q) ↦ inl (e, ground (arith, q))
  | inr q ↦ inr (ground (arith, q))
]

-- Whatever its callees answer, a device that has just been set up, with any number of ports, keeps the
-- following through any history of changes to the eswitch's mode, the number of VFs and its limit, and
-- of added and deleted PF ports, as long as no port with an index from 128 on is deleted: in the mode
-- switchdev its VF ports are exactly those of its VFs, in the mode legacy it has none, and there are no
-- more VFs than the limit, which leaves every VF an index.
pub run-port_add_all-IsSound :
    (a : ℕ → PortAnswers) (port_count : ℕ) (ops : List Op)
    → are_in_range ops ≡ true
    → IsSound (run ops (port_add_all a port_count new_dev).1)
unfolding vf_ports_of vf_ports
run-port_add_all-IsSound a port_count ops r =
    let start : IsSound new_dev = record {
      ports = refl;
      room = omega arith;
      limit = omega arith;
    } in
    let started : IsSound (port_add_all a port_count new_dev).1 =
      elim (port_add_all-cases a port_count) [
        | inl (e, q) ↦ subst IsSound (sym (ap (λ (x : Status × Dev). x.1) q)) start
        | inr q ↦ subst IsSound (sym (ap (λ (x : Status × Dev). x.1) q)) (record {
          ports = vf_ports-stacked_pf 0 port_count [];
          room = omega arith;
          limit = omega arith;
        })
      ] in
    run-IsSound ops (port_add_all a port_count new_dev).1 r started
