-- ===== src/Drv/Fat/Dirs.antt =====
-- drv/FS/fat.c: the entries of a directory, 32 bytes each.
pub mod Search
use vireo_kernel.Prelude.{
  ℕ, zero, suc, ◌+◌, ◌-◌, ◌*◌, ◌/◌, ◌%◌, ◌^◌, Bool, not, ◌&&◌, ◌||◌, if◌then◌else◌, ltb, leb, ◌==◌,
  ◌>>>◌, Run, done, stop, fault, ◌>>=◌, load, store, List, [], ◌∷◌, ◌++◌, length, Option, none,
  some,
}
use vireo_kernel.Util.{max_u32, strlen, strcmp}
use vireo_kernel.Dsk.Mbr.{word_at}
use vireo_kernel.Drv.Machine.{Machine, fetch}
use vireo_kernel.Drv.Fat.{FsInfo, fat_sector_size, fat32_read_fat, update_fat, seek_empty_clusters}

abbrev pub entry_size : ℕ
entry_size = 32

abbrev pub filename_len : ℕ
filename_len = 11

-- Deleted entries, long names, volume names and hidden files.
abbrev pub is_skipped : ℕ → ℕ → Bool
is_skipped first attrib = first == 0xe5 || attrib == 0x3f || attrib == 0x08 || attrib == 0x02

-- The loop of `FAT_file_exists` at entry `i`, for `left` entries at most.
pub file_exists_loop : ℕ → List ℕ → List ℕ → ℕ → Run ℕ
file_exists_loop zero dir filename i = stop
file_exists_loop (suc left) dir filename i = do
  first ← load dir (entry_size * i)
  let rest = file_exists_loop left dir filename (i + 1)
  let compare_names = fetch dir (entry_size * i) filename_len >>= λ file.
      strcmp (file ++ (0 ∷ [])) filename >>= λ differ. if differ == 0 then done i else rest
  let look = load dir (entry_size * i + 11) >>= λ attrib.
      if is_skipped first attrib then rest else compare_names
  if first == 0 || i == max_u32 then done max_u32 else look

-- The directory ends after fewer rounds than it has bytes.
pub fat_file_exists : List ℕ → List ℕ → Run ℕ
fat_file_exists dir filename = do
  len ← strlen (some filename)
  let search = file_exists_loop (length dir + 1) dir filename 0
  if ltb filename_len len || len == 0 then done max_u32 else search

-- The loop of `dir_find_last` at entry `n`.
pub find_last_loop : ℕ → List ℕ → ℕ → Run ℕ
find_last_loop zero dir n = stop
find_last_loop (suc left) dir n = do
  first ← load dir (entry_size * n)
  let rest = find_last_loop left dir (n + 1)
  if first == 0 then done n else rest

pub dir_find_last : List ℕ → Run ℕ
dir_find_last dir = find_last_loop (length dir + 1) dir 0

module _ {W : Type 0} (m : Machine W) (drive : ℕ) (info : FsInfo) where
  pub dir_determine_cluster : ℕ → ℕ → W → Run ℕ
  dir_determine_cluster entry cluster w = do
    r ← fat32_read_fat m drive info cluster w
    let sectors =
        ((entry * entry_size) >>> 9) + (if entry * entry_size % fat_sector_size == 0 then 0 else 1)
    c ← if info.sectclust == 0 then fault else load r.0 (sectors / info.sectclust)
    done (if c == 0x0fffffff then cluster else c)

  -- The new cluster. The directory is freed here, and the new block that is to take its place is
  -- lost, since only the parameter `dir` is changed; the caller's entry number becomes 0.
  pub dir_prepare_new : ℕ → W → Run (ℕ × W)
  dir_prepare_new original_cluster w = do
    clusters ← seek_empty_clusters m drive info 1 w
    chain ← fat32_read_fat m drive info original_cluster w
    next ← elim clusters [ none ↦ word_at m.low 0 | some cs ↦ load cs 0 ]
    last ← load chain.0 (chain.1 - 1)
    w' ← update_fat m drive info (last ∷ next ∷ []) 2 w
    done (next, w')
