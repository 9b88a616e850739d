-- ===== src/Virtio.antt =====
-- The virtio back ends: virtio/devices, and the interrupt table of virtio/mailbox.
pub mod Ring
pub mod Iov
pub mod Device
pub mod Trans
pub mod IsrTable
pub mod Network
mod Tests
