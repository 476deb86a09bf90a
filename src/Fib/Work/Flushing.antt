-- ===== src/Fib/Work/Flushing.antt =====
-- The flush of all routes of netdevsim/fib.c.
use netdevsim_dkms.Base.{◌-◌, ◌≡◌, refl, ◌∙◌, false, List, [], ◌∷◌, arith, if◌then◌else◌, length}
use netdevsim_dkms.Fib.Resources.{account}
use netdevsim_dkms.Fib.Routes.{
  Family, inet, inet6, Route, FibData, account_fib, key_of, same_family,
}
use netdevsim_dkms.Fib.Routes.Keys.{keys4}
use netdevsim_dkms.Fib.Work.{rt_free, free_routes}

-- What the flush does to the routes and to their counter of IPv4, and what it leaves alone.
pub record IsFreed (rs : List Route) (s' s : FibData) : Type 0 where
  pub routes : s'.routes ≡ []
  pub num : s'.ipv4.fib.num ≡ s.ipv4.fib.num - length (keys4 rs)
  pub max : s'.ipv4.fib.max ≡ s.ipv4.fib.max
  pub waiting : s'.queue ≡ s.queue
  pub offload : s'.fail_route_offload ≡ s.fail_route_offload
  pub delete : s'.fail_route_delete ≡ s.fail_route_delete

account_fib-num :
    (f : Family) (s : FibData)
    → (account_fib f false s).1.ipv4.fib.num
      ≡ (if same_family f inet then s.ipv4.fib.num - 1 else s.ipv4.fib.num)
unfolding account
account_fib-num inet s = refl
account_fib-num inet6 s = refl

account_fib-rest :
    (f : Family) (s : FibData)
    → ((account_fib f false s).1.ipv4.fib.max ≡ s.ipv4.fib.max)
      × ((account_fib f false s).1.queue ≡ s.queue)
      × ((account_fib f false s).1.fail_route_offload ≡ s.fail_route_offload)
      × ((account_fib f false s).1.fail_route_delete ≡ s.fail_route_delete)
unfolding account
account_fib-rest inet s = (refl, refl, refl, refl)
account_fib-rest inet6 s = (refl, refl, refl, refl)

pub free_routes-IsFreed : (rs : List Route) (s : FibData) → IsFreed rs (free_routes rs s) s
unfolding free_routes rt_free keys4
free_routes-IsFreed [] s = ground arith
free_routes-IsFreed (r ∷ rs) s =
    let s0 : FibData = record s { routes = rs } in
    let s1 : FibData = rt_free r s0 in
    let rest = free_routes-IsFreed rs s1 in
    let (max, waiting, offload, delete) = account_fib-rest (key_of r).family s0 in
    record {
      routes = rest.routes;
      num = rest.num ∙ ground (arith, account_fib-num (key_of r).family s0);
      max = rest.max ∙ max;
      waiting = rest.waiting ∙ waiting;
      offload = rest.offload ∙ offload;
      delete = rest.delete ∙ delete;
    }
