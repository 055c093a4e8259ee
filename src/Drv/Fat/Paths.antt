-- ===== src/Drv/Fat/Paths.antt =====
-- drv/FS/fat.c: from a path to its entry in a directory.
pub mod Short
use vireo_kernel.Prelude.{
  ℕ, zero, suc, ◌+◌, ◌-◌, ◌*◌, ◌^◌, Bool, not, ◌&&◌, if◌then◌else◌, ltb, ◌==◌, u32, Run, done, stop,
  ◌>>=◌, load, List, [], ◌∷◌, drop, length, Option, none, some,
}
use vireo_kernel.Util.{max_u32, strlen, strcmp, strchr, memcpy}
use vireo_kernel.Util.Tokens.{strtok}
use vireo_kernel.Drv.Machine.{Machine, or_low}
use vireo_kernel.Drv.Fat.{FsInfo}
use vireo_kernel.Drv.Fat.Files.{entry_cluster, fat32_read_dir}
use vireo_kernel.Drv.Fat.Dirs.{entry_size, filename_len, fat_file_exists}
use vireo_kernel.Drv.Fat.Names.{slash, fat_convert_filename}

-- An entry is the directory from the entry on; `none` is NULL.
abbrev pub Entry : Type 0
Entry = Option (List ℕ)

abbrev pub dot_dot : List ℕ
dot_dot = b'.' ∷ b'.' ∷ 0 ∷ []

module _ {W : Type 0} (m : Machine W) where
  -- `char *file[12]` has 48 bytes. The name comes back as the conversion leaves it.
  pub fat_find_in_dir :
      Option (List ℕ) → List ℕ → Option (List ℕ) → Run (Entry × List ℕ × Option (List ℕ))
  fat_find_in_dir dir filename holder = do
    file ← fat_convert_filename m filename (m.stack 48) holder
    entry ← fat_file_exists (or_low m.low dir) file.0
    done (
      if entry == max_u32 then none else some (drop (entry_size * entry) (or_low m.low dir)),
      file.1,
      file.2,
    )

  -- `file` for a part of the path, and the holder.
  pub component : List ℕ → List ℕ → List ℕ → Option (List ℕ) → Run (List ℕ × Option (List ℕ))
  component path current file holder = do
    missing ← strchr path b'.'
    let up = strcmp current dot_dot
    let convert = fat_convert_filename m current file holder >>= λ f. done (f.0, f.2)
    if missing == 0
        then (up >>= λ differ. if differ == 0 then done (file, holder) else convert)
        else done (file, holder)

module _ {W : Type 0} (m : Machine W) (drive : ℕ) (info : FsInfo) where
  -- The loop of `FAT_convertPath`, for `left` rounds at most: the entry, `*dir_cluster` and the holder.
  pub convert_path_loop :
      ℕ
      → List ℕ
      → Option (List ℕ)
      → Option (List ℕ)
      → List ℕ
      → ℕ
      → ℕ
      → W
      → Run (Entry × (ℕ × Option (List ℕ)))
  convert_path_loop zero path current holder file cluster prev_cluster w = stop
  convert_path_loop (suc left) path current holder file cluster prev_cluster w = do
    n ← strlen current
    let size = u32 (n + 2 ^ 32 - 1)
    copied ← memcpy file (or_low m.low current) size
    let go_on = component m path (or_low m.low current) copied holder
    f ← if ltb filename_len size then stop else go_on
    buffer ← fat32_read_dir m drive info cluster w
    dir ← fat_find_in_dir m buffer f.0 f.1
    cluster' ← entry_cluster (or_low m.low dir.0)
    elim (dir.0) [
      | none ↦ done (none, (prev_cluster, dir.2))
      | some entry ↦ do
        t ← strtok none slash dir.2
        elim (t.0) [
          | none ↦ done (some entry, (cluster', t.1))
          | some next ↦ convert_path_loop left path (some next) t.1 dir.1 cluster' cluster' w
        ]
    ]

  -- The number of rounds is that of the characters of the path.
  pub fat_convert_path : List ℕ → Option (List ℕ) → W → Run (Entry × (ℕ × Option (List ℕ)))
  fat_convert_path path holder w = do
    len ← strlen (some path)
    backup ← memcpy (m.fresh (len + 1)) path len
    volume ← strtok (some backup) slash holder
    first ← strtok none slash volume.1
    convert_path_loop (len + 1) path first.0 first.1 (m.stack 12) info.rootcluster info.rootcluster
        w
