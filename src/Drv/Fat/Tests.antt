-- ===== src/Drv/Fat/Tests.antt =====
-- The FAT driver at concrete tables, names and directories.
use vireo_kernel.Prelude.{
  ℕ, ◌+◌, ◌*◌, ◌/◌, ◌%◌, ◌<◌, ◌≤◌, ◌≡◌, refl, arith, List, [], ◌∷◌, ◌++◌, length, length-append, ap,
  ◌∙◌, length-replicate, replicate, if◌then◌else◌, ◌==◌, none, some, done, fault, inr, ◌^◌, take,
}
use vireo_kernel.Util.Strings.{IsText}
use vireo_kernel.Drv.Machine.{Machine}
use vireo_kernel.Drv.Machine.Medium.{
  Sectors, fit, fit_self, memory_disk, memory_disk-IsMedium, memory_disk_room,
}
use vireo_kernel.Drv.Fat.{FsInfo, fat32_read_table, fat32_read_fat, update_fat}
use vireo_kernel.Drv.Fat.Chains.{StartsWith}
use vireo_kernel.Drv.Fat.Chains.Disk.{DiskChain, at_end, goes_on, fat32_read_fat-DiskChain}
use vireo_kernel.Drv.Fat.Table.{entry_of, fat32_read_table_lem}
use vireo_kernel.Drv.Fat.Links.{IsUntouched, update_fat-fat32_read_fat}
use vireo_kernel.Drv.Fat.Names.{fat_convert_filename}
use vireo_kernel.Drv.Fat.Names.Convert.{short_name, fat_convert_filename_lem}
use vireo_kernel.Drv.Fat.Dirs.{fat_file_exists}
use vireo_kernel.Drv.Fat.Dirs.Search.{directory, FirstNamed, fat_file_exists_lem}

abbrev small_info : FsInfo
small_info = record {
  drive = 0;
  partition = 0;
  fs_type = 0x0b;
  volname = [];
  sectclust = 1;
  fatsector = 32;
  rootcluster = 2;
  firstdatasect = 1000;
}

abbrev no_sectors : Sectors
no_sectors = λ l. []

-- Clusters 2, 3 and 5 are written as a chain.
update_fat-fat32_read_fat_example :
    (w' : Sectors) × (update_fat memory_disk 0 small_info (2 ∷ 3 ∷ 5 ∷ []) 3 no_sectors ≡ done w')
    × ((clusters : List ℕ) × (fat32_read_fat memory_disk 0 small_info 2 w' ≡ done (clusters, 4))
        × StartsWith (2 ∷ 2 ∷ 3 ∷ 5 ∷ []) clusters)
    × ((d : ℕ)
        → d < 2 ^ 28
        → IsUntouched d (2 ∷ 3 ∷ 5 ∷ [])
        → entry_of (λ l. fit 512 (w' l)) small_info d
          ≡ entry_of (λ l. fit 512 (no_sectors l)) small_info d)
update_fat-fat32_read_fat_example =
    update_fat-fat32_read_fat memory_disk 0 small_info (λ w lba. fit 512 (w lba))
      (memory_disk-IsMedium 0) memory_disk_room no_sectors 2 (3 ∷ 5 ∷ [])
      (
        (ground arith, omega arith, omega arith),
        ((ground arith, omega arith, omega arith), ((ground arith, omega arith, omega arith), tt)),
      )
      ((ground arith, (ground arith, tt)), ((ground arith, tt), (tt, tt))) (omega arith)

-- Every sector of the disk holds entries 2 and 3: 3, and the end mark.
abbrev table_bytes : List ℕ
table_bytes =
    replicate 32 0 ++ (3 ∷ 0 ∷ 0 ∷ 0 ∷ (replicate 12 0 ++ (0xff ∷ 0xff ∷ 0xff ∷ 0x0f ∷ [])))

-- `n` zero bytes
zeros : ℕ → List ℕ
zeros n = replicate n 0

length-zeros : (n : ℕ) → length (zeros n) ≡ n
unfolding zeros
length-zeros n = length-replicate {A = ℕ} n 0

sector_bytes : List ℕ
sector_bytes = table_bytes ++ zeros 460

length-sector_bytes : length sector_bytes ≡ 512
unfolding sector_bytes
length-sector_bytes =
    length-append table_bytes (zeros 460) ∙ ap (λ (k : ℕ). 52 + k) (length-zeros 460)

answer_bytes : ℕ → List ℕ
answer_bytes n = if n == 1 then sector_bytes else zeros (n * 512)

abbrev table_disk : Machine (Unit {0})
table_disk = record {
  read_disk = λ drive lba sectors w. done (0, answer_bytes sectors);
  write_disk = λ drive lba sectors bytes w. done w;
  fresh = λ n. zeros n;
  block_for = λ n. none;
  fresh_words = λ n. zeros (n / 4);
  stack = λ n. replicate n 0;
  pages = λ n. some (zeros 4096);
  low = [];
}

abbrev tables : Sectors
tables = λ l. sector_bytes

abbrev on_memory : Sectors → ℕ → List ℕ
on_memory w lba = fit 512 (w lba)

entry_at_8 : entry_of (on_memory tables) small_info 8 ≡ 3
unfolding sector_bytes
entry_at_8 = rw (fit_self 512 sector_bytes length-sector_bytes) refl

entry_at_12 : entry_of (on_memory tables) small_info 12 ≡ 0x0fffffff
unfolding sector_bytes
entry_at_12 = rw (fit_self 512 sector_bytes length-sector_bytes) refl

abbrev IsChain : ℕ → List ℕ → Type 0
IsChain = DiskChain memory_disk 0 small_info on_memory (memory_disk-IsMedium 0) tables

-- The chain of clusters 2 and 3, whose links stand at the entries of clusters 8 and 12.
on_disk : IsChain 2 (2 ∷ 3 ∷ [])
on_disk =
    let last : IsChain 0x0fffffff [] = at_end 0x0fffffff (inr (omega arith)) in
    let three : IsChain 3 (3 ∷ []) =
      goes_on 3 [] (ground arith) (omega arith) (omega arith) (rw entry_at_12 last) in
    goes_on 2 (3 ∷ []) (ground arith) (omega arith) (omega arith) (rw entry_at_8 three)

fat32_read_fat-DiskChain_example :
    (2 < 128
      → (clusters : List ℕ) × (fat32_read_fat memory_disk 0 small_info 2 tables
          ≡ done (clusters, 3))
        × StartsWith (2 ∷ 2 ∷ 3 ∷ []) clusters)
    × (128 ≤ 2 → fat32_read_fat memory_disk 0 small_info 2 tables ≡ fault)
fat32_read_fat-DiskChain_example =
    fat32_read_fat-DiskChain memory_disk 0 small_info on_memory (memory_disk-IsMedium 0) tables
      memory_disk_room 2 (2 ∷ 3 ∷ []) (omega arith) on_disk

-- The entry of cluster 8 is read for cluster 2.
fat32_read_table_lem_example :
    (2 % 128 < 32
      → fat32_read_table memory_disk 0 small_info 2 tables
        ≡ done (entry_of (on_memory tables) small_info 8))
    × (2 % 128 ≡ 0
        → fat32_read_table memory_disk 0 small_info 2 tables
          ≡ done (entry_of (on_memory tables) small_info 2))
    × (32 ≤ 2 % 128 → fat32_read_table memory_disk 0 small_info 2 tables ≡ fault)
fat32_read_table_lem_example =
    fat32_read_table_lem memory_disk 0 small_info on_memory (memory_disk-IsMedium 0) tables 2
      (omega arith)

abbrev file_entry : List ℕ
file_entry =
    b'F' ∷ b'I' ∷ b'L' ∷ b'E' ∷ b' ' ∷ b' ' ∷ b' ' ∷ b' ' ∷ b'T' ∷ b'X' ∷ b'T' ∷ 0 ∷ replicate 20 0

abbrev file_name : List ℕ
file_name = take 11 file_entry

file_name-IsText : IsText file_name
file_name-IsText = (
  ground arith,
  (
    ground arith,
    (
      ground arith,
      (
        ground arith,
        (
          ground arith,
          (
            ground arith,
            (ground arith, (ground arith, (ground arith, (ground arith, (ground arith, tt))))),
          ),
        ),
      ),
    ),
  ),
)

fat_file_exists_lem_example :
    (r : ℕ) × (fat_file_exists (directory (file_entry ∷ []) []) (file_name ++ (0 ∷ [])) ≡ done r)
    × FirstNamed (file_entry ∷ []) file_name 0 r
fat_file_exists_lem_example =
    fat_file_exists_lem file_name [] [] file_name-IsText (file_entry ∷ [])
      ((refl, file_name-IsText), tt) (omega arith) (omega arith) (omega arith)

-- The name ab.c
fat_convert_filename_lem_example :
    fat_convert_filename table_disk
      ((b'a' ∷ b'b' ∷ []) ++ (b'.' ∷ ((b'c' ∷ []) ++ (0 ∷ []))))
      (replicate 12 0 ++ [])
      none
    ≡ done (
      (short_name (b'a' ∷ b'b' ∷ []) (b'c' ∷ []) ++ (0 ∷ [])) ++ [],
      b'a' ∷ b'b' ∷ 0 ∷ b'c' ∷ 0 ∷ [],
      none,
    )
fat_convert_filename_lem_example =
    fat_convert_filename_lem table_disk b'a' b'c' (b'b' ∷ []) [] [] (replicate 12 0) [] none refl
      refl (omega arith)
      ((ground arith, ground arith, omega arith), ((ground arith, ground arith, omega arith), tt))
      ((ground arith, ground arith, omega arith), tt)

-- 100 bytes at cluster 3
abbrev entry_of_three : List ℕ
entry_of_three = replicate 26 0 ++ (3 ∷ 0 ∷ 100 ∷ 0 ∷ 0 ∷ 0 ∷ [])

abbrev boot_sector : List ℕ
boot_sector = replicate 13 0 ++ (4 ∷ [])
