-- ===== src/Dev.antt =====
-- The device core of netdevsim/dev.c: the ports of a device, and how it comes and goes.
pub mod Ports
pub mod Stages
pub mod Life
