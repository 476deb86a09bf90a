-- ===== src/Bus/Peers.antt =====
-- The links between netdevsim interfaces: `link_device_store` and `unlink_device_store` of
-- netdevsim/bus.c and the end of an interface in `nsim_destroy` of netdevsim/netdev.c. An interface is
-- a number. What the kernel finds for the namespaces and the indices of a request is an argument.
pub mod Symmetry
mod Examples
use netdevsim_dkms.Base.{
  ℕ, Bool, true, false, not, Option, none, some, List, [], ◌∷◌, einval, ebusy, ok, err, Status,
  success, ◌==◌, if◌then◌else◌,
}

-- The `peer` pointer of every interface.
abbrev pub Peers : Type 0
Peers = ℕ → Option ℕ

abbrev pub set_peer : ℕ → Option ℕ → Peers → Peers
set_peer a v p = λ i. if i == a then v else p i

-- What `__dev_get_by_index` finds: an interface, and whether it is a netdevsim.
pub record Netdev : Type 0 where
  pub id : ℕ
  pub is_nsim : Bool

-- The first of the two tests on an interface: none, or no netdevsim.
abbrev pub nsim_of : Option Netdev → Option ℕ
nsim_of none = none
nsim_of (some d) = if d.is_nsim then some d.id else none

unfoldable pub link_nsims : ℕ → ℕ → Peers → Status × Peers
link_nsims a b p = if a == b then (err einval, p) else elim (p a) [
  | some c ↦ (err ebusy, p)
  | none ↦ elim (p b) [
    | some c ↦ (err ebusy, p)
    | none ↦ (success, set_peer b (some a) (set_peer a (some b) p))
  ]
]

-- The flags say whether the text has the format, and whether the two namespaces are found.
unfoldable pub link_device :
    Bool → Bool → Bool → Option Netdev → Option Netdev → Peers → Status × Peers
link_device parsed ns_a ns_b dev_a dev_b p =
    if not parsed
    then (err einval, p)
    else if not ns_a
    then (err einval, p)
    else if not ns_b
    then (err einval, p)
    else elim (nsim_of dev_a) [
      | none ↦ (err einval, p)
      | some a ↦ elim (nsim_of dev_b) [ none ↦ (err einval, p) | some b ↦ link_nsims a b p ]
    ]

unfoldable pub unlink_device : Bool → Bool → Option Netdev → Peers → Status × Peers
unlink_device parsed ns dev p =
    if not parsed then (err einval, p) else if not ns then (err einval, p) else elim (nsim_of dev) [
      | none ↦ (err einval, p)
      | some a ↦ elim (p a) [
        | none ↦ (err einval, p)
        | some b ↦ (success, set_peer b none (set_peer a none p))
      ]
    ]

-- What `nsim_destroy` does to the links.
unfoldable pub destroy_links : ℕ → Peers → Peers
destroy_links a p = elim (p a) [
  | none ↦ set_peer a none p
  | some b ↦ set_peer a none (set_peer b none p)
]

-- The calls that change links.
pub data Call : Type 0 where
  link : Bool → Bool → Bool → Option Netdev → Option Netdev → Call
  unlink : Bool → Bool → Option Netdev → Call
  destroy : ℕ → Call

unfoldable pub step : Call → Peers → Peers
step (link parsed ns_a ns_b dev_a dev_b) p = (link_device parsed ns_a ns_b dev_a dev_b p).1
step (unlink parsed ns dev) p = (unlink_device parsed ns dev p).1
step (destroy a) p = destroy_links a p

-- A history of calls, the first one first.
unfoldable pub run : List Call → Peers → Peers
run [] p = p
run (c ∷ cs) p = run cs (step c p)

-- No interface is linked when it is created.
abbrev pub no_links : Peers
no_links i = none
