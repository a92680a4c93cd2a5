-- ===== src/Vatpit.antt =====
-- The programmable interval timer, bios/vmm/io/vatpit.c. Times are numbers of its ticks, so that the
-- `vatpit_delta_ticks` of a channel are those since its count was loaded.
pub mod Channel
pub mod Ports
pub mod Latch
pub mod Places
pub mod Access
pub mod Run
mod Tests
