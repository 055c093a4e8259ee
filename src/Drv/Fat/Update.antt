-- ===== src/Drv/Fat/Update.antt =====
-- drv/FS/fat.c: the operations that change a directory.
use vireo_kernel.Prelude.{
  ℕ, ◌+◌, ◌-◌, ◌*◌, ◌/◌, ◌%◌, ◌^◌, not, if◌then◌else◌, leb, ◌==◌, u16, u32, Run, done, fault, ◌>>=◌,
  load, store, List, [], ◌∷◌, drop, Option, none, some,
}
use vireo_kernel.Util.{
  max_u32, strlen, memcpy, exit_code_global_success, exit_code_global_general_fail,
}
use vireo_kernel.Dsk.Mbr.{word_at}
use vireo_kernel.Drv.Machine.{Machine, or_low, store_half, store_word, fetch, put_bytes}
use vireo_kernel.Drv.Fat.{FsInfo, fat_sector_size, update_fat, seek_empty_clusters}
use vireo_kernel.Drv.Fat.Files.{fat32_read_dir, save}
use vireo_kernel.Drv.Fat.Dirs.{
  entry_size, fat_file_exists, dir_find_last, dir_determine_cluster, dir_prepare_new,
}
use vireo_kernel.Drv.Fat.Names.{path_find_last, fat_get_file_name, fat_convert_filename}
use vireo_kernel.Drv.Fat.Paths.{fat_convert_path}

abbrev pub exit_code_fs_unsupported_drive : ℕ
exit_code_fs_unsupported_drive = 0x10

abbrev pub exit_code_fs_file_not_found : ℕ
exit_code_fs_file_not_found = 0x11

abbrev pub exit_code_fs_file_exists : ℕ
exit_code_fs_file_exists = 0x13

-- The fields of the new entry at byte `at`.
pub fill_entry : List ℕ → ℕ → List ℕ → ℕ → ℕ → ℕ → Run (List ℕ)
fill_entry dir at name attrib fcluster fsize = do
  d0 ← store dir (at + 11) attrib
  d1 ← store_half d0 (at + 20) (u16 (fcluster / 2 ^ 16))
  d2 ← store_half d1 (at + 26) (u16 fcluster)
  d3 ← store_word d2 (at + 28) fsize
  bytes ← fetch name 0 11
  put_bytes d3 at bytes

module _ {W : Type 0} (m : Machine W) (drive : ℕ) (info : FsInfo) (boot : List ℕ) where
  -- The directory goes to one cluster, from the entry number `entry / (SECTOR_SIZE * sectclust)` on.
  pub save_dir : List ℕ → ℕ → ℕ → W → Run W
  save_dir dir entry cluster w = do
    let start = entry / (fat_sector_size * info.sectclust)
    if info.sectclust == 0
        then fault
        else save m drive info boot (cluster ∷ []) 1 (drop (entry_size * start) dir)
            (fat_sector_size * info.sectclust) w

  -- The place of a new entry: its number, the cluster, and the disks.
  pub place_entry : List ℕ → ℕ → W → Run (ℕ × (ℕ × W))
  place_entry dir cluster w = do
    entry ← dir_find_last dir
    let fresh_cluster = dir_prepare_new m drive info cluster w >>= λ r. done (0, r)
    let own_cluster =
        dir_determine_cluster m drive info entry cluster w >>= λ c. done (entry, (c, w))
    if leb (fat_sector_size * info.sectclust) (entry * entry_size)
        then fresh_cluster
        else own_cluster

  -- The exit code, the holder of strtok and the disks.
  pub update_dir : List ℕ → ℕ → ℕ → ℕ → Option (List ℕ) → W → Run (ℕ × (Option (List ℕ) × W))
  update_dir path fsize attrib fcluster holder w = do
    len ← strlen (some path)
    s ← memcpy (m.fresh len) path (len + 1)
    i ← path_find_last m s holder
    f ← fat_get_file_name m s (m.stack 12) i.1
    s' ← store s (u32 (i.0 + 2 ^ 32 - 1)) 0
    d ← fat_convert_path m drive info s' f.1 w
    found ← fat32_read_dir m drive info d.1.0 w
    elim found [
      | none ↦ done (exit_code_global_general_fail, (d.1.1, w))
      | some dir ↦ do
        known ← fat_file_exists dir f.0
        let add = place_entry dir d.1.0 w >>= λ p.
            fill_entry dir (entry_size * p.0) f.0 attrib fcluster fsize >>= λ dir'.
            save_dir dir' p.0 p.1.0 p.1.1 >>= λ w'. done (exit_code_global_success, (d.1.1, w'))
        if not (known == max_u32) then done (exit_code_fs_file_exists, (d.1.1, w)) else add
    ]

  -- `none` is an error code that is left as it was.
  pub fat_rename : List ℕ → List ℕ → Option (List ℕ) → W → Run (Option ℕ × (Option (List ℕ) × W))
  fat_rename old new holder w = do
    o ← fat_get_file_name m old (m.stack 12) holder
    n ← fat_convert_filename m new (m.stack 12) o.1
    len ← strlen (some old)
    obackup ← memcpy (m.fresh (len + 1)) old (len + 1)
    i ← path_find_last m obackup n.2
    backup ← store obackup (u32 (i.0 + 2 ^ 32 - 1)) 0
    d ← fat_convert_path m drive info backup i.1 w
    found ← fat32_read_dir m drive info d.1.0 w
    elim found [
      | none ↦ done (some exit_code_fs_file_not_found, (d.1.1, w))
      | some dir ↦ do
        taken ← fat_file_exists dir n.0
        let change = λ (entry : ℕ). fetch n.0 0 11 >>= λ bytes.
            put_bytes dir (entry_size * entry) bytes >>= λ dir'.
            dir_determine_cluster m drive info entry d.1.0 w >>= λ c.
            save_dir dir' entry c w >>= λ w'. done (none, (d.1.1, w'))
        let rename = fat_file_exists dir o.0 >>= λ entry.
            if entry == max_u32 then done (none, (d.1.1, w)) else change entry
        if not (taken == max_u32) then done (some exit_code_fs_file_exists, (d.1.1, w)) else rename
    ]

  -- The array of all clusters: the first one is known, and the copy of the others goes to
  -- `c + sizeof(uint32_t)`, word 4.
  pub all_clusters : ℕ → ℕ → W → Run (List ℕ)
  all_clusters n_clusters first w = do
    c ← store (m.fresh_words (u32 (n_clusters * 4))) 0 first
    let more = u32 (n_clusters + 2 ^ 32 - 1)
    let others = seek_empty_clusters m drive info more w >>= λ cs.
        fetch (or_low m.low cs) 0 (u32 (more * 4) / 4) >>= λ ws. put_bytes c 4 ws
    if more == 0 then done c else others

  pub fat_save_file :
      List ℕ → List ℕ → ℕ → ℕ → Option (List ℕ) → W → Run (Option ℕ × (Option (List ℕ) × W))
  fat_save_file filename buffer buffer_size attrib holder w = do
    let cluster_size = info.sectclust * fat_sector_size
    let rest = if buffer_size % cluster_size == 0 then 0 else 1
    let n_clusters = buffer_size / cluster_size + rest
    let write_all = λ (first : ℕ) (h : Option (List ℕ)) (w0 : W).
        all_clusters n_clusters first w0 >>= λ c. update_fat m drive info c n_clusters w0 >>= λ w'.
        save m drive info boot c n_clusters buffer buffer_size w' >>= λ w''. done (none, (h, w''))
    clusters ← if cluster_size == 0 then fault else seek_empty_clusters m drive info 1 w
    first ← elim clusters [ none ↦ word_at m.low 0 | some cs ↦ load cs 0 ]
    r ← update_dir filename buffer_size attrib first holder w
    if not (r.0 == 0) then done (some r.0, r.1) else write_all first r.1.0 r.1.1
