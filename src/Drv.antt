-- ===== src/Drv.antt =====
-- drv/: the drivers that the kernel contains.
pub mod Fat
pub mod Ide
pub mod Iso
pub mod Machine
