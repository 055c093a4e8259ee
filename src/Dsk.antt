-- ===== src/Dsk.antt =====
-- dsk/: the disks as the rest of the kernel sees them.
pub mod Diskio
pub mod Mbr
pub mod Cd
mod Tests
