-- ===== src/Fib/Siblings/Examples.antt =====
-- A concrete run of the nexthops of an IPv6 route of netdevsim/fib.c.
use netdevsim_dkms.Base.{ℕ, ◌≡◌, refl, Bool, [], ◌∷◌, err, enomem, ltb}
use netdevsim_dkms.Fib.Siblings.{Siblings, nh_add, nh_add_all}

abbrev one_nexthop : Siblings
one_nexthop = record { nh_list = 20 ∷ []; nhs = 1 }

-- Memory for two nexthops only.
abbrev short : ℕ → Bool
short i = ltb i 2

two_added : (nh_add_all short 0 (21 ∷ 22 ∷ []) one_nexthop).1.nh_list ≡ 20 ∷ 21 ∷ 22 ∷ []
unfolding nh_add_all nh_add
two_added = refl

third_fails : (nh_add_all short 0 (21 ∷ 22 ∷ 23 ∷ []) one_nexthop).0 ≡ err enomem
unfolding nh_add_all nh_add
third_fails = refl
