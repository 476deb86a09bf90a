-- ===== src/Bus/Peers/Symmetry.antt =====
-- Links are mutual, whatever the history of calls.
use netdevsim_dkms.Base.{
  ℕ, ◌≡◌, subst, ◌≢◌, inl, inr, Bool, true, Option, none, some, List, [], ◌∷◌, arith, success,
  Option-cases,
}
use netdevsim_dkms.Bus.Peers.{
  Peers, set_peer, Netdev, nsim_of, link_nsims, link_device, unlink_device, destroy_links, Call,
  link, unlink, destroy, step, run, no_links,
}

-- The peer of `a`, if it has one, is another interface, whose peer is `a`.
abbrev pub IsMutual : Peers → ℕ → Option ℕ → Type 0
IsMutual p a none = Unit
IsMutual p a (some b) = (p b ≡ some a) × (a ≢ b)

pub record IsSymmetric (p : Peers) : Type 0 where
  pub mutual_at : (a : ℕ) → IsMutual p a (p a)

-- What the link of `a` says, once it is known.
IsMutual-IsSymmetric : (p : Peers) (a : ℕ) (o : Option ℕ) → IsSymmetric p → p a ≡ o → IsMutual p a o
IsMutual-IsSymmetric p a o h e = subst (λ v. IsMutual p a v) e (h.mutual_at a)

-- A new link between two interfaces without one.
linked-IsSymmetric :
    (a b : ℕ) (p : Peers)
    → IsSymmetric p
    → a ≢ b
    → p a ≡ none
    → p b ≡ none
    → IsSymmetric (set_peer b (some a) (set_peer a (some b) p))
linked-IsSymmetric a b p h ne pa pb = record { mutual_at = at }
  where
    at :
        (i : ℕ)
        → IsMutual
            (set_peer b (some a) (set_peer a (some b) p))
            i
            (set_peer b (some a) (set_peer a (some b) p) i)
    at i = elim (Option-cases (p i)) [
      | inl e ↦ ground (arith, e, ne)
      | inr (c, e) ↦ ground (arith, e, ne, pa, pb, IsMutual-IsSymmetric p i (some c) h e)
    ]

-- The end of a link, in either order of the two writes.
unlinked-IsSymmetric :
    (a b : ℕ) (p : Peers)
    → IsSymmetric p
    → p a ≡ some b
    → IsSymmetric (set_peer b none (set_peer a none p))
unlinked-IsSymmetric a b p h pa = record { mutual_at = at }
  where
    at :
        (i : ℕ)
        → IsMutual (set_peer b none (set_peer a none p)) i (set_peer b none (set_peer a none p) i)
    at i = elim (Option-cases (p i)) [
      | inl e ↦ ground (arith, e)
      | inr (c, e) ↦ ground (
        arith,
        e,
        pa,
        IsMutual-IsSymmetric p a (some b) h pa,
        IsMutual-IsSymmetric p i (some c) h e,
      )
    ]

dropped-IsSymmetric :
    (a : ℕ) (p : Peers) → IsSymmetric p → p a ≡ none → IsSymmetric (set_peer a none p)
dropped-IsSymmetric a p h pa = record { mutual_at = at }
  where
    at : (i : ℕ) → IsMutual (set_peer a none p) i (set_peer a none p i)
    at i = elim (Option-cases (p i)) [
      | inl e ↦ ground (arith, e)
      | inr (c, e) ↦ ground (arith, e, pa, IsMutual-IsSymmetric p i (some c) h e)
    ]

link_nsims-IsSymmetric : (a b : ℕ) (p : Peers) → IsSymmetric p → IsSymmetric (link_nsims a b p).1
unfolding link_nsims
link_nsims-IsSymmetric a b p h =
    ground (
      arith,
      λ (ne : a ≢ b) (pa : p a ≡ none) (pb : p b ≡ none). linked-IsSymmetric a b p h ne pa pb,
    )

destroy_links-IsSymmetric : (a : ℕ) (p : Peers) → IsSymmetric p → IsSymmetric (destroy_links a p)
unfolding destroy_links
destroy_links-IsSymmetric a p h = elim (Option-cases (p a)) [
  | inl e ↦ rw (destroy_links, e) (dropped-IsSymmetric a p h e)
  | inr (b, e) ↦
      rw (destroy_links, e) (unlinked-IsSymmetric b a p h (IsMutual-IsSymmetric p a (some b) h e).0)
]

pub step-IsSymmetric : (c : Call) (p : Peers) → IsSymmetric p → IsSymmetric (step c p)
unfolding step link_device unlink_device
step-IsSymmetric (link parsed ns_a ns_b dev_a dev_b) p h = elim (Option-cases (nsim_of dev_a)) [
  | inl ea ↦ ground (arith, ea, h)
  | inr (a, ea) ↦ elim (Option-cases (nsim_of dev_b)) [
    | inl eb ↦ ground (arith, ea, eb, h)
    | inr (b, eb) ↦ ground (arith, ea, eb, h, link_nsims-IsSymmetric a b p h)
  ]
]
step-IsSymmetric (unlink parsed ns dev) p h = elim (Option-cases (nsim_of dev)) [
  | inl ea ↦ ground (arith, ea, h)
  | inr (a, ea) ↦ elim (Option-cases (p a)) [
    | inl e ↦ ground (arith, ea, e, h)
    | inr (b, e) ↦ ground (arith, ea, e, unlinked-IsSymmetric a b p h e)
  ]
]
step-IsSymmetric (destroy a) p h = destroy_links-IsSymmetric a p h

-- After any history of linking, unlinking and destroying interfaces, requests that fail included, a
-- peer's peer is the interface itself, and no interface is its own peer.
pub run-IsSymmetric : (cs : List Call) → IsSymmetric (run cs no_links)
unfolding run
run-IsSymmetric cs = go cs no_links (record { mutual_at = λ a. tt })
  where
    go : (cs : List Call) (p : Peers) → IsSymmetric p → IsSymmetric (run cs p)
    go [] p h = h
    go (c ∷ cs) p h = go cs (step c p) (step-IsSymmetric c p h)

-- After a `link_device_store` that succeeded, an `unlink_device_store` of either end succeeds, and
-- every interface has the peer it had before.
pub unlink_device-link_device :
    (parsed ns_a ns_b : Bool) (dev_a dev_b : Option Netdev) (p : Peers) (i : ℕ)
    → (link_device parsed ns_a ns_b dev_a dev_b p).0 ≡ success
    → let q = (link_device parsed ns_a ns_b dev_a dev_b p).1 in
      ((unlink_device true true dev_a q).0 ≡ success)
      × ((unlink_device true true dev_b q).0 ≡ success)
      × ((unlink_device true true dev_a q).1 i ≡ p i)
      × ((unlink_device true true dev_b q).1 i ≡ p i)
unfolding link_device unlink_device link_nsims
unlink_device-link_device parsed ns_a ns_b dev_a dev_b p i h = ground arith
