-- ===== src/Drv/Fat/Paths/Short.antt =====
-- drv/FS/fat.c: the search in a directory for a name without a dot.
use vireo_kernel.Drv.Machine.{Machine}
