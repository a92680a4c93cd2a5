-- ===== src/Virtio.antt =====
-- Virtio devices as their drivers see them, bios/bhyve/virtio.c and the inline functions of
-- bios/bhyve/virtio.h.
pub mod Queue
pub mod Device
mod Tests
