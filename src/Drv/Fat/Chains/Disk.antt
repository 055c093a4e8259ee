-- ===== src/Drv/Fat/Chains/Disk.antt =====
-- drv/FS/fat.c: FAT32_readFat and the table on the disk.
use vireo_kernel.Prelude.{
  ℕ, ◌+◌, ◌%◌, ◌^◌, ◌≤◌, ◌<◌, ◌≡◌, ◌≢◌, ◌⊎◌, arith, ◌∙◌, true, false, done, fault, List, [], ◌∷◌,
  ◌++◌, length, bit_and,
}
use vireo_kernel.Prelude.Bits.{bit_and-mask}
use vireo_kernel.Drv.Machine.{Machine}
use vireo_kernel.Drv.Machine.Medium.{IsMedium}
use vireo_kernel.Drv.Fat.{FsInfo, in_chain, read_fat_loop, fat32_read_fat}
use vireo_kernel.Drv.Fat.Table.{entry_of, mistaken_for, fat32_read_table_lem}
use vireo_kernel.Drv.Fat.Chains.{Chain, over, link, StartsWith, fat32_read_fat_lem}

in_chain_used : (c : ℕ) → c ≢ 0 → c < 0x0ffffff8 → in_chain c ≡ true
in_chain_used c nz lt =
    let same : bit_and c 0x0fffffff ≡ c = bit_and-mask 28 c ∙ omega arith in rw same (ground arith)

in_chain_end : (c : ℕ) → c < 2 ^ 28 → (c ≡ 0) ⊎ (0x0ffffff8 ≤ c) → in_chain c ≡ false
in_chain_end c small end =
    let same : bit_and c 0x0fffffff ≡ c = bit_and-mask 28 c ∙ omega arith in rw same (ground arith)

module _ {W : Type 0} (m : Machine W) (drive : ℕ) (info : FsInfo) (sector : W → ℕ → List ℕ)
    (medium : IsMedium m drive sector) (w : W) where
  -- What the disk has for a cluster, at the entry that is taken for its own.
  abbrev follows : ℕ → ℕ
  follows c = entry_of (sector w) info (mistaken_for c)

  -- A chain on the disk, by the entries that are taken for those of its clusters; each cluster has a
  -- number below 32 modulo 128.
  pub data DiskChain : ℕ → List ℕ → Type 0 where
    at_end : (c : ℕ) → (c ≡ 0) ⊎ (0x0ffffff8 ≤ c) → DiskChain c []
    goes_on :
        (c : ℕ) (cs : List ℕ)
        → c ≢ 0
        → c < 0x0ffffff8
        → c % 128 < 32
        → DiskChain (entry_of (sector w) info (mistaken_for c)) cs
        → DiskChain c (c ∷ cs)

  follows_bound : (c : ℕ) → follows c < 2 ^ 28
  follows_bound c = omega arith

  Chain-DiskChain : {cs : List ℕ} {c : ℕ} → c < 2 ^ 28 → DiskChain c cs → Chain m drive info w c cs
  Chain-DiskChain small (at_end c end) = over c (in_chain_end c small end)
  Chain-DiskChain small (goes_on c cs nz lt near tail) =
      link c (follows c) cs (in_chain_used c nz lt)
        ((fat32_read_table_lem m drive info sector medium w c small).0 near)
        (Chain-DiskChain (follows_bound c) tail)

  -- FAT32_readFat gives the first cluster of a chain on the disk of at most 127 clusters twice, and then
  -- the others in order, with the length of the chain plus one as their number. A longer chain is
  -- written past the end of the array.
  pub fat32_read_fat-DiskChain :
      length (m.fresh_words 512) ≡ 128
      → (c : ℕ) (cs : List ℕ) → c < 2 ^ 28
      → DiskChain c cs
      → (length cs < 128
          → (clusters : List ℕ) × (fat32_read_fat m drive info c w ≡ done (clusters, 1 + length cs))
            × StartsWith (c ∷ cs) clusters)
        × (128 ≤ length cs → fat32_read_fat m drive info c w ≡ fault)
  fat32_read_fat-DiskChain room c cs small chain =
      fat32_read_fat_lem m drive info w room (Chain-DiskChain small chain)

  -- The loop writes or reads past the end of an array, and there is no chain that has room in the rest.
  abbrev Broken : ℕ → List ℕ → List ℕ → ℕ → Type 0
  Broken left before rest c =
      (read_fat_loop m drive info left (before ++ rest) (length before) c w ≡ fault)
      × ((cs : List ℕ) → DiskChain c cs → length rest < length cs)
