-- ===== src/Drv/Fat/Files/ReadDir.antt =====
-- drv/FS/fat.c: what FAT32_readDir puts into its buffer.
use vireo_kernel.Prelude.{ℕ, ◌≡◌, done, List, [], ◌∷◌, ◌++◌, length}
use vireo_kernel.Drv.Machine.{Machine}
use vireo_kernel.Drv.Fat.{FsInfo, fat_cluster_lba}

module _ {W : Type 0} (m : Machine W) (drive : ℕ) (info : FsInfo) (w : W) (sector : ℕ → List ℕ)
    (reads : (lba : ℕ) → m.read_disk drive lba 1 w ≡ done (0, sector lba))
    (full : (lba : ℕ) → length (sector lba) ≡ 512) (one : info.sectclust ≡ 1) where
  -- The sectors of clusters of one sector each.
  abbrev pub contents : List ℕ → List ℕ
  contents [] = []
  contents (c ∷ cs) = sector (fat_cluster_lba info c) ++ contents cs
