-- ===== src/Vatpic.antt =====
-- The pair of 8259 interrupt controllers, bios/vmm/io/vatpic.c.
pub mod Chip
pub mod Pair
pub mod Ports
