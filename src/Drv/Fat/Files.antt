-- ===== src/Drv/Fat/Files.antt =====
-- drv/FS/fat.c: the contents of directories and files. `boot` is info_buffer, the place for the
-- boot sector.
pub mod ReadDir
pub mod ReadFile
use vireo_kernel.Prelude.{
  ℕ, zero, suc, ◌+◌, ◌-◌, ◌*◌, ◌/◌, ◌%◌, ◌^◌, Bool, not, if◌then◌else◌, ltb, leb, ◌==◌, u32, bit_or,
  ◌<<<◌, ◌>>>◌, Run, done, ◌>>=◌, load, store, List, [], ◌∷◌, Option, none, some,
}
use vireo_kernel.Dsk.Mbr.{word_at}
use vireo_kernel.Drv.Machine.{Machine, half_at, put_bytes, fetch}
use vireo_kernel.Drv.Fat.{FsInfo, fat_sector_size, fat_cluster_lba, fat32_read_fat}

-- `(uint32_t) (entry->clHi << 16U) | (entry->clLo)`; `entry` is the directory from the entry on.
abbrev pub entry_cluster : List ℕ → Run ℕ
entry_cluster entry = do
  high ← half_at entry 20
  low ← half_at entry 26
  done (bit_or (high <<< 16) low)

module _ {W : Type 0} (m : Machine W) (drive : ℕ) (info : FsInfo) where
  -- The loop of `FAT32_readDir` at cluster number `i`: the place in the buffer moves on by 512 bytes.
  pub read_dir_loop : ℕ → List ℕ → List ℕ → ℕ → W → Run (Option (List ℕ))
  read_dir_loop zero dir_clusters buffer i w = done (some buffer)
  read_dir_loop (suc left) dir_clusters buffer i w = do
    cluster ← load dir_clusters i
    r ← m.read_disk drive (fat_cluster_lba info cluster) info.sectclust w
    let rest = λ (b : List ℕ). read_dir_loop left dir_clusters b (i + 1) w
    if not (r.0 == 0) then done none else (put_bytes buffer (i * 512) r.1 >>= λ b. rest b)

  -- `none` is NULL.
  pub fat32_read_dir : ℕ → W → Run (Option (List ℕ))
  fat32_read_dir cluster w = do
    let first = if cluster == 0 then info.rootcluster else cluster
    c ← fat32_read_fat m drive info first w
    read_dir_loop c.1 c.0 (m.fresh (u32 (c.1 * info.sectclust * 512))) 0 w

  -- The loop of `FAT32_read_file` at cluster number `i`, with byte `at` of the buffer next. The
  -- buffer is a pointer to words, so it moves on by four bytes for each byte of a cluster.
  pub read_file_loop : ℕ → List ℕ → ℕ → List ℕ → ℕ → ℕ → ℕ → W → Run (List ℕ)
  read_file_loop zero clusters sectclust buffer at nlba i w = done buffer
  read_file_loop (suc left) clusters sectclust buffer at nlba i w = do
    cluster ← load clusters i
    let nsects = if ltb nlba sectclust then nlba else sectclust
    r ← m.read_disk drive (fat_cluster_lba info cluster) nsects w
    b ← put_bytes buffer at r.1
    let nlba' = if leb sectclust nlba then nlba - sectclust else nlba
    read_file_loop left clusters sectclust b (at + (sectclust <<< 9) * 4) nlba' (i + 1) w

  pub fat32_read_file : List ℕ → List ℕ → W → Run (Option (List ℕ))
  fat32_read_file boot entry w = do
    cluster ← entry_cluster entry
    c ← fat32_read_fat m drive info cluster w
    sectclust ← load boot 13
    fsize ← word_at entry 28
    let nlba_read = (fsize >>> 9) + 1
    elim (m.pages (u32 (nlba_read <<< 9))) [
      | none ↦ done none
      | some buffer ↦
          (read_file_loop c.1 c.0 sectclust buffer 0 nlba_read 0 w >>= λ b. done (some b))
    ]

  -- The loop of `save`: the buffer is a pointer to halves, which moves on by two bytes for each byte.
  pub save_loop : ℕ → List ℕ → ℕ → List ℕ → ℕ → ℕ → ℕ → W → Run W
  save_loop zero clusters sectclust buffer at nlba i w = done w
  save_loop (suc left) clusters sectclust buffer at nlba i w = do
    let nsects = if ltb nlba sectclust then nlba else sectclust
    cluster ← load clusters i
    bytes ← fetch buffer at (nsects * fat_sector_size)
    w' ← m.write_disk drive (fat_cluster_lba info cluster) nsects bytes w
    let nlba' = if leb sectclust nlba then nlba - sectclust else nlba
    save_loop left clusters sectclust buffer (at + (sectclust <<< 9) * 2) nlba' (i + 1) w'

  pub save : List ℕ → List ℕ → ℕ → List ℕ → ℕ → W → Run W
  save boot clusters n buffer buffer_size w = do
    sectclust ← load boot 13
    save_loop n clusters sectclust buffer 0 ((buffer_size >>> 9) + 1) 0 w
