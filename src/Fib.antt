-- ===== src/Fib.antt =====
-- The bookkeeping of routes, rules and nexthops of netdevsim/fib.c.
pub mod Resources
pub mod Nexthops
pub mod Siblings
pub mod Routes
pub mod Work
