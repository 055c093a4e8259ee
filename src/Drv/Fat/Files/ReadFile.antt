-- ===== src/Drv/Fat/Files/ReadFile.antt =====
-- drv/FS/fat.c: FAT32_read_file of a file that lies in one cluster.
use vireo_kernel.Prelude.{ℕ, ◌*◌, ◌≡◌, done, List, length}
use vireo_kernel.Drv.Machine.{Machine}

-- Reads of `n` sectors succeed with 512 bytes each.
abbrev pub ReadsSectors : {W : Type 0} → Machine W → ℕ → W → Type 0
ReadsSectors m drive w =
    (lba n : ℕ)
    → (bytes : List ℕ) × (m.read_disk drive lba n w ≡ done (0, bytes)) × (length bytes ≡ n * 512)
