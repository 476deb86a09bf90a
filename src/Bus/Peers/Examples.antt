-- ===== src/Bus/Peers/Examples.antt =====
-- Links between concrete interfaces.
use netdevsim_dkms.Base.{ℕ, true, some, List, [], ◌∷◌}
use netdevsim_dkms.Bus.Peers.{Netdev, Call, link, destroy, run, no_links}
use netdevsim_dkms.Bus.Peers.Symmetry.{IsSymmetric, run-IsSymmetric}

abbrev nsim : ℕ → Netdev
nsim i = record { id = i; is_nsim = true }

-- A link, one that is refused, the end of an interface, and a link of the one that was left.
abbrev history : List Call
history =
    link true true true (some (nsim 1)) (some (nsim 2))
    ∷ link true true true (some (nsim 2)) (some (nsim 3))
    ∷ destroy 1
    ∷ link true true true (some (nsim 2)) (some (nsim 3))
    ∷ []

run-IsSymmetric_example : IsSymmetric (run history no_links)
run-IsSymmetric_example = run-IsSymmetric history
