-- ===== src/System.antt =====
-- The system counters: the deviations of the devices of photosyst.h, by deviate.c.
pub mod Disks
pub mod Interfaces
pub mod Totals
pub mod Memory
pub mod Cpu
pub mod Containers
