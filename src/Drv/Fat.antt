-- ===== src/Drv/Fat.antt =====
-- drv/FS/fat.c: the file allocation table. The state of the disks is passed on; `info` is what
-- partition_info_ptr points to. A chain of clusters is kept in an array of 128 words.
pub mod Files
pub mod Dirs
pub mod Names
pub mod Paths
pub mod Update
pub mod Handler
pub mod Chains
pub mod Table
pub mod Links
pub mod Seek
mod Tests
use vireo_kernel.Prelude.{
  ℕ, zero, suc, ◌+◌, ◌-◌, ◌*◌, ◌/◌, ◌%◌, ◌^◌, Bool, true, false, not, ◌&&◌, if◌then◌else◌, ltb, leb,
  ◌==◌, u32, bit_and, Run, done, stop, fault, ◌>>=◌, load, store, List, [], ◌∷◌, Option, none, some,
}
use vireo_kernel.Dsk.Mbr.{word_at}
use vireo_kernel.Drv.Machine.{Machine, store_word}

pub record FsInfo : Type 0 where
  pub drive : ℕ
  pub partition : ℕ
  pub fs_type : ℕ
  pub volname : List ℕ
  pub sectclust : ℕ
  pub fatsector : ℕ
  pub rootcluster : ℕ
  pub firstdatasect : ℕ

abbrev pub fat_sector_size : ℕ
fat_sector_size = 512

-- The array for a chain has room for this many clusters.
abbrev pub chain_length : ℕ
chain_length = 128

-- The end of the range that `seek_empty_clusters` looks through.
abbrev pub last_cluster : ℕ
last_cluster = 0x0ffffff7

abbrev pub in_chain : ℕ → Bool
in_chain cluster = not (cluster == 0) && ltb (bit_and cluster 0x0fffffff) 0x0ffffff8

pub fat_cluster_lba : FsInfo → ℕ → ℕ
fat_cluster_lba info cluster =
    u32 (u32 (cluster + 2 ^ 32 - 2) * info.sectclust + info.firstdatasect)

-- The sector of the table that has a cluster's entry, and the index of the entry.
abbrev pub fat_sector : FsInfo → ℕ → ℕ
fat_sector info cluster = u32 (info.fatsector + u32 (cluster * 4) / 512)

abbrev pub fat_entry : ℕ → ℕ
fat_entry cluster = u32 (cluster * 4) % 512

-- What `update_fat` writes for cluster number `i` of `n`.
pub next_in_chain : List ℕ → ℕ → ℕ → Run ℕ
next_in_chain clusters n i =
    let next = load clusters (i + 1) in
    if i == n - 1 then done 0x0fffffff else (next >>= λ c. done (bit_and c 0x0fffffff))

module _ {W : Type 0} (m : Machine W) (drive : ℕ) (info : FsInfo) where
  -- `table` has 32-bit words: `table[entry]` stands at byte `4 * entry`.
  pub fat32_read_table : ℕ → W → Run ℕ
  fat32_read_table cluster w = do
    r ← m.read_disk drive (fat_sector info cluster) 1 w
    let entry = word_at r.1 (4 * fat_entry cluster)
    if not (r.0 == 0) then done 0 else (entry >>= λ c. done (bit_and c 0x0fffffff))

  -- The loop of `FAT32_readFat`, for `left` rounds at most, with `n` clusters in the array. The
  -- loop's own test of the cluster for NULL cannot succeed.
  pub read_fat_loop : ℕ → List ℕ → ℕ → ℕ → W → Run (List ℕ × ℕ)
  read_fat_loop zero clusters n cluster w = stop
  read_fat_loop (suc left) clusters n cluster w =
      let rest = λ (cs : List ℕ) (c : ℕ). read_fat_loop left cs (n + 1) c w in
      if in_chain cluster
      then (store clusters n cluster >>= λ cs. fat32_read_table cluster w >>= λ c. rest cs c)
      else done (clusters, n)

  -- The array of clusters and their number.
  pub fat32_read_fat : ℕ → W → Run (List ℕ × ℕ)
  fat32_read_fat cluster w = do
    clusters ← store (m.fresh_words (chain_length * 4)) 0 cluster
    read_fat_loop chain_length clusters 1 cluster w

  -- The loop of `update_fat` from cluster number `i` on, with `left` of the `n` to go.
  pub update_fat_from : List ℕ → ℕ → ℕ → ℕ → W → Run W
  update_fat_from clusters n zero i w = done w
  update_fat_from clusters n (suc left) i w = do
    cluster ← load clusters i
    r ← m.read_disk drive (fat_sector info cluster) 1 w
    let rest = λ (w' : W). update_fat_from clusters n left (i + 1) w'
    let change = next_in_chain clusters n i >>= λ v. store_word r.1 (4 * fat_entry cluster) v
    if not (r.0 == 0)
        then done w
        else (change >>= λ table.
            m.write_disk drive (fat_sector info cluster) 1 table w >>= λ w'. rest w')

  pub update_fat : List ℕ → ℕ → W → Run W
  update_fat clusters n w = update_fat_from clusters n n 0 w

  -- The loop of `seek_empty_clusters` at cluster `i`, with `c` clusters found and `left` to look at.
  pub seek_loop : ℕ → List ℕ → ℕ → ℕ → ℕ → W → Run (List ℕ × ℕ)
  seek_loop zero clusters n c i w = done (clusters, i)
  seek_loop (suc left) clusters n c i w = do
    cluster ← fat32_read_table i w
    let rest = λ (cs : List ℕ) (found : ℕ). seek_loop left cs n found (i + 1) w
    let free = bit_and cluster 0x0fffffff == 0
    let found = if free then c + 1 else c
    clusters' ← if free then store clusters c i else done clusters
    if leb n found then done (clusters', i) else rest clusters' found

  -- `none` is NULL.
  pub seek_empty_clusters : ℕ → W → Run (Option (List ℕ))
  seek_empty_clusters n w =
      let block = m.fresh_words (u32 (n * 4)) in
      let search = seek_loop (last_cluster - info.rootcluster) block n 0 info.rootcluster w in
      if n == 0
      then done none
      else (search >>= λ r. done (if leb 0x0ffffff8 r.1 then none else some r.0))
