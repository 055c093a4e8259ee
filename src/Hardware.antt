-- ===== src/Hardware.antt =====
-- hardware/: ports, timer, interrupt controllers, the PCI bus and the driver list.
pub mod Io
pub mod Timer
pub mod Pic
pub mod Pci
pub mod Driver
mod Tests
