-- ===== src/Vlapic.antt =====
-- The local APIC, bios/vmm/io/vlapic.c, and the interrupts that reach it, bios/vmm/vmm_lapic.c.
pub mod Vectors
pub mod Apic
pub mod Access
pub mod Start
pub mod Machine
pub mod Command
pub mod Keeps
pub mod System
pub mod Good
pub mod Offer
pub mod Registers
pub mod Frames
pub mod Safe
pub mod Runs
pub mod Eoi
pub mod Logical
pub mod Destinations
pub mod Delivery
mod Tests
