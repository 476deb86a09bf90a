-- ===== src/Dev/Ports.antt =====
-- The ports of a device and the mode of its eswitch, of netdevsim/dev.c. What the allocator, devlink,
-- debugfs and the creation of an interface answer is an argument.
pub mod Loops
pub mod Eswitch
pub mod Steps
pub mod Back
mod Examples
use netdevsim_dkms.Base.{
  ℕ, zero, suc, ◌+◌, ◌-◌, ◌%◌, ◌^◌, Bool, true, false, not, ◌&&◌, List, [], ◌∷◌, einval, enomem,
  eexist, enoent, ebusy, erange, Result, ok, err, Status, success, ◌==◌, ltb, if◌then◌else◌,
}

pub data PortType : Type 0 where
  pf vf : PortType

-- `struct nsim_dev_port`
pub record Port : Type 0 where
  pub port_index : ℕ
  pub port_type : PortType

-- `other_mode` is a number that is neither mode.
pub data EswMode : Type 0 where
  legacy switchdev other_mode : EswMode

-- The ports, the eswitch and the VFs of `struct nsim_dev` and its device on the bus.
pub record Dev : Type 0 where
  pub port_list : List Port
  pub esw_mode : EswMode
  pub num_vfs : ℕ
  pub max_vfs : ℕ

abbrev pub dev_port_index : PortType → ℕ → ℕ
dev_port_index vf i = (128 + i) % 2 ^ 32
dev_port_index pf i = i

abbrev pub is_vf_type : PortType → Bool
is_vf_type vf = true
is_vf_type pf = false

abbrev pub is_vf : Port → Bool
is_vf p = is_vf_type p.port_type

-- What the callees of one `__nsim_dev_port_add` answer.
pub record PortAnswers : Type 0 where
  pub mem : Bool
  pub registered : Status
  pub debugfs : Status
  pub created : Status
  pub rate_leaf : Status

-- The parts of a port that is not added are taken back, so that only its list tells.
unfoldable pub port_add : PortType → ℕ → PortAnswers → Dev → Status × Dev
port_add t i a d =
    let index = dev_port_index t i in
    let added = record d {
      port_list = record { port_index = index; port_type = t } ∷ d.port_list;
    } in
    if is_vf_type t && (d.num_vfs == 0)
    then (err einval, d)
    else if not a.mem
    then (err enomem, d)
    else elim a.registered [
      | err e ↦ (err e, d)
      | ok u ↦ elim a.debugfs [
        | err e ↦ (err e, d)
        | ok u ↦ elim a.created [
          | err e ↦ (err e, d)
          | ok u ↦
              if is_vf_type t
              then elim a.rate_leaf [ err e ↦ (err e, d) | ok u ↦ (success, added) ]
              else (success, added)
        ]
      ]
    ]

-- `nsim_dev_port_del_all`
unfoldable pub port_del_all : Dev → Dev
port_del_all d = record d { port_list = [] }

-- The loops of `nsim_dev_port_add_all` and `nsim_esw_switchdev_enable` over the `n` ports that are left.
unfoldable pub add_ports : PortType → (ℕ → PortAnswers) → ℕ → ℕ → Dev → Status × Dev
add_ports t a i zero d = (success, d)
add_ports t a i (suc n) d =
    let r = port_add t i (a i) d in
    let rest = add_ports t a (suc i) n r.1 in elim r.0 [ err e ↦ (err e, r.1) | ok u ↦ rest ]

unfoldable pub port_add_all : (ℕ → PortAnswers) → ℕ → Dev → Status × Dev
port_add_all a port_count d =
    let r = add_ports pf a 0 port_count d in
    elim r.0 [ err e ↦ (err e, port_del_all r.1) | ok u ↦ (success, r.1) ]

-- The ports that the loops over the VF ports leave.
unfoldable pub without_vfs : List Port → List Port
without_vfs [] = []
without_vfs (p ∷ ps) = if is_vf p then without_vfs ps else p ∷ without_vfs ps

unfoldable pub esw_legacy_enable : Dev → Dev
esw_legacy_enable d = record d { port_list = without_vfs d.port_list; esw_mode = legacy }

unfoldable pub esw_switchdev_enable : (ℕ → PortAnswers) → Dev → Status × Dev
esw_switchdev_enable a d =
    let r = add_ports vf a 0 d.num_vfs d in
    elim r.0 [
      | err e ↦ (err e, record r.1 { port_list = without_vfs r.1.port_list })
      | ok u ↦ (success, record r.1 { esw_mode = switchdev })
    ]

abbrev pub is_legacy : EswMode → Bool
is_legacy legacy = true
is_legacy switchdev = false
is_legacy other_mode = false

abbrev pub is_switchdev : EswMode → Bool
is_switchdev legacy = false
is_switchdev switchdev = true
is_switchdev other_mode = false

unfoldable pub eswitch_mode_set : EswMode → (ℕ → PortAnswers) → Dev → Status × Dev
eswitch_mode_set legacy a d =
    if is_legacy d.esw_mode then (success, d) else (success, esw_legacy_enable d)
eswitch_mode_set switchdev a d =
    if is_switchdev d.esw_mode then (success, d) else esw_switchdev_enable a d
eswitch_mode_set other_mode a d = (err einval, d)

unfoldable pub has_index : ℕ → List Port → Bool
has_index i [] = false
has_index i (p ∷ ps) = if p.port_index == i then true else has_index i ps

-- `__nsim_dev_port_del` of the first port with an index.
unfoldable pub del_index : ℕ → List Port → List Port
del_index i [] = []
del_index i (p ∷ ps) = if p.port_index == i then ps else p ∷ del_index i ps

unfoldable pub drv_port_add : PortType → ℕ → PortAnswers → Dev → Status × Dev
drv_port_add t i a d =
    if has_index (dev_port_index t i) d.port_list then (err eexist, d) else port_add t i a d

unfoldable pub drv_port_del : PortType → ℕ → Dev → Status × Dev
drv_port_del t i d =
    if has_index (dev_port_index t i) d.port_list
    then (success, record d { port_list = del_index (dev_port_index t i) d.port_list })
    else (err enoent, d)

-- When the VF ports cannot be set up, there are no VFs.
abbrev pub or_no_vfs : Status × Dev → Status × Dev
or_no_vfs r = elim r.0 [ err e ↦ (err e, record r.1 { num_vfs = 0 }) | ok u ↦ (success, r.1) ]

unfoldable pub drv_configure_vfs : ℕ → (ℕ → PortAnswers) → Dev → Status × Dev
drv_configure_vfs num_vfs a d =
    let d' = record d { num_vfs = num_vfs } in
    if d.num_vfs == num_vfs
    then (success, d)
    else if not (d.num_vfs == 0) && not (num_vfs == 0)
    then (err ebusy, d)
    else if ltb d.max_vfs num_vfs
    then (err enomem, d)
    else if not (is_switchdev d.esw_mode)
    then (success, d')
    else if num_vfs == 0
    then (success, esw_legacy_enable d')
    else or_no_vfs (esw_switchdev_enable a d')

-- `nsim_bus_dev_max_vfs_write` from the number on; `mem` says whether the new table is allocated.
unfoldable pub max_vfs_write : ℕ → Bool → Dev → Status × Dev
max_vfs_write val mem d =
    if ltb (2 ^ 32 - 1 - 128) val
    then (err erange, d)
    else if not mem
    then (err enomem, d)
    else if not (d.num_vfs == 0)
    then (err ebusy, d)
    else (success, record d { max_vfs = val })
