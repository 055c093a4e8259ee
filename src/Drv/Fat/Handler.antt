-- ===== src/Drv/Fat/Handler.antt =====
-- drv/FS/fat.c: the start of the driver and the packets that it takes.
use vireo_kernel.Prelude.{
  ℕ, zero, suc, ◌+◌, ◌-◌, ◌*◌, ◌^◌, Bool, true, false, not, ◌&&◌, ◌||◌, if◌then◌else◌, ◌==◌, u8,
  u32, ◌>>>◌, Run, done, ◌>>=◌, ◌>>◌, dbg_assert, load, store, List, [], ◌∷◌, ◌++◌, Option, none,
  some, bit_and, bit_or,
}
use vireo_kernel.Util.{
  exit_code_global_success, exit_code_global_general_fail, exit_code_global_unsupported,
}
use vireo_kernel.Dsk.Diskio.{convert_drive_id}
use vireo_kernel.Dsk.Mbr.{Mbr, mbr_get_start_lba, word_at}
use vireo_kernel.Drv.Machine.{Machine, or_low, half_at, fetch}
use vireo_kernel.Drv.Fat.{FsInfo, fat_sector_size}
use vireo_kernel.Drv.Fat.Files.{fat32_read_file}
use vireo_kernel.Drv.Fat.Paths.{fat_convert_path}
use vireo_kernel.Drv.Fat.Update.{
  exit_code_fs_unsupported_drive, exit_code_fs_file_not_found, fat_rename, fat_save_file,
}

abbrev pub fat_max_partitions : ℕ
fat_max_partitions = 8

abbrev pub fs_type_fat12 : ℕ
fs_type_fat12 = 0x01

abbrev pub fs_type_fat16 : ℕ
fs_type_fat16 = 0x04

abbrev pub fs_type_fat32 : ℕ
fs_type_fat32 = 0x0b

-- The static variables. `is_set` tells whether partition_info_ptr points to the first element of
-- partition_info_t, the only place that it ever points to, or is NULL.
pub record Fat : Type 0 where
  pub partition_info_t : List FsInfo
  pub is_set : Bool
  pub current_working_partition : ℕ
  pub current_working_drive : ℕ
  pub g_error_code : ℕ
  pub info_buffer : Option (List ℕ)
  pub fat_flags : ℕ
  pub holder : Option (List ℕ)

-- A packet, with its pointers followed.
pub data FatPacket : Type 0 where
  init : (drive partition fs_type : ℕ) → FatPacket
  read_file : (path : List ℕ) → FatPacket
  write_file : (path buffer : List ℕ) (buffer_size attrib : ℕ) → FatPacket
  rename_file : (old new : List ℕ) → FatPacket
  other : (command : ℕ) → FatPacket

-- The loop of `FAT_setup_FS_INFO` at entry `i`: `drive` there is always 0.
pub setup_from : ℕ → ℕ → List FsInfo → Run (List FsInfo)
setup_from zero i infos = done infos
setup_from (suc left) i infos = do
  info ← load infos i
  infos' ←
      store infos i
        (record info { drive = u8 ((i >>> 2) + 2 ^ 32 - 1); partition = u8 (i + 2 ^ 32 - 2) })
  setup_from left (i + 1) infos'

pub fat_setup_fs_info : List FsInfo → Run (List FsInfo)
fat_setup_fs_info infos = setup_from (fat_max_partitions >>> 1) 0 infos

-- The loop of `FAT_alreadyExists`: `info` is the same in every round.
pub already_exists_loop : ℕ → FsInfo → ℕ → ℕ → ℕ
already_exists_loop zero info drive partition = exit_code_global_success
already_exists_loop (suc left) info drive partition =
    let rest = already_exists_loop left info drive partition in
    if not (info.drive == drive && info.partition == partition)
    then rest
    else if not (info.fs_type == 0)
    then exit_code_global_general_fail
    else rest

pub fat_already_exists : FsInfo → ℕ → ℕ → ℕ
fat_already_exists info drive partition =
    already_exists_loop fat_max_partitions info drive partition

-- The fields of FS_INFO that the boot sector `bpb` gives. `none` is the return for FAT12 and FAT16,
-- behind the changes to `fatsector`.
pub info_from_boot : List ℕ → ℕ → ℕ → FsInfo → Run (FsInfo × Bool)
info_from_boot bpb start_lba fs_type info = do
  bsector ← half_at bpb 11
  dbg_assert (bsector == fat_sector_size)
  resv_sect ← half_at bpb 14
  root ← word_at bpb 44
  volume ← fetch bpb 71 11
  n_fat ← load bpb 16
  sect_fat32 ← word_at bpb 36
  sect_clust ← load bpb 13
  let fatsector = u32 (resv_sect + start_lba)
  let known = record info { fatsector = fatsector }
  let is_old =
      not (fs_type == fs_type_fat32) && (fs_type == fs_type_fat12 || fs_type == fs_type_fat16)
  let rootcluster = if fs_type == fs_type_fat32 then root else info.rootcluster
  let complete = record info {
    fatsector = fatsector;
    rootcluster = rootcluster;
    volname = volume ++ (0 ∷ []);
    firstdatasect = u32 (fatsector + n_fat * sect_fat32);
    sectclust = sect_clust;
    fs_type = u8 fs_type;
  }
  done (if is_old then (known, false) else (complete, true))

-- `disks` is what MBR_enumerate has found, `drivelist` the types of the drives, `null_info` what
-- stands at address 0 read as an FS_INFO.
module _ {W : Type 0} (m : Machine W) (disks : List Mbr) (drivelist : List ℕ)
    (null_info : FsInfo) where
  pub fat_get_info : Fat → Run FsInfo
  fat_get_info s = if s.is_set then load s.partition_info_t 0 else done null_info

  pub fat_init : ℕ → ℕ → ℕ → Fat → W → Run Fat
  fat_init drive partition fs_type s w = do
    start_lba ← mbr_get_start_lba disks (u8 drive) (u8 partition)
    current ← fat_get_info s
    let fill = m.read_disk (u8 drive) start_lba 1 w >>= λ r. load s.partition_info_t 0 >>= λ info.
        (if not (r.0 == 0) then done (info, false) else info_from_boot r.1 start_lba fs_type info)
        >>= λ i. store s.partition_info_t 0 i.0 >>= λ infos. done (
            if i.1
            then record s {
              partition_info_t = infos;
              is_set = true;
              fat_flags = bit_or s.fat_flags 1;
            }
            else record s { partition_info_t = infos })
    if not (fat_already_exists current (u8 drive) (u8 partition) == 0) then done s else fill

  -- The exit code and the state.
  pub fat_set_drive_partition_active : List ℕ → Fat → Run (ℕ × Fat)
  fat_set_drive_partition_active id s = do
    drive ← convert_drive_id drivelist id
    done (
        if drive == 0xffff then (exit_code_fs_unsupported_drive, s) else (
          exit_code_global_success,
          record s {
            current_working_drive = bit_and (drive >>> 8) 0xff;
            current_working_partition = bit_and drive 0xff;
          },
        ))

  -- FS_COMMAND_INIT
  pub handle_init : ℕ → ℕ → ℕ → Fat → W → Run Fat
  handle_init drive partition fs_type s w = do
    let buffer = or_low (m.fresh fat_sector_size) s.info_buffer
    let is_known = not (s.fat_flags == 0) && not (1 == 0)
    infos ← if is_known then done s.partition_info_t else fat_setup_fs_info s.partition_info_t
    fat_init (u8 drive) (u8 partition) fs_type
        (record s {
          partition_info_t = infos;
          current_working_drive = u8 drive;
          current_working_partition = u8 partition;
          g_error_code = 0;
          info_buffer = some buffer;
        })
        w

  -- FS_COMMAND_READ: the buffer and the size, if they are set.
  pub handle_read : List ℕ → Fat → W → Run (Fat × Option (Option (List ℕ) × ℕ))
  handle_read path s w = do
    a ← fat_set_drive_partition_active path s
    let active = record a.1 { g_error_code = a.0 }
    let drive = active.current_working_drive
    let look_up = fat_get_info active >>= λ info.
        fat_convert_path m drive info path active.holder w >>= λ d. elim (d.0) [
          | none ↦
              done
                (record active { g_error_code = exit_code_fs_file_not_found; holder = d.1.1 }, none)
          | some entry ↦ do
            ptr ← fat32_read_file m drive info (or_low m.low active.info_buffer) entry w
            size ← word_at entry 28
            let error : ℕ = elim ptr [ none ↦ exit_code_global_general_fail | some b ↦ a.0 ]
            done (record active { g_error_code = error; holder = d.1.1 }, some (ptr, size))
        ]
    if a.0 == exit_code_fs_unsupported_drive then done (active, none) else look_up

  -- An operation that may change the disks: what it says of the error code, and the new holder.
  pub conclude : Fat → Option ℕ × (Option (List ℕ) × W) → Fat × W
  conclude s r =
      let error : ℕ = elim (r.0) [ none ↦ s.g_error_code | some e ↦ e ] in
      (record s { g_error_code = error; holder = r.1.0 }, r.1.1)

  -- FS_COMMAND_WRITE and FS_COMMAND_RENAME
  pub handle_change :
      List ℕ → (FsInfo → Fat → Run (Option ℕ × (Option (List ℕ) × W))) → Fat → W → Run (Fat × W)
  handle_change path operation s w = do
    a ← fat_set_drive_partition_active path s
    let active = record a.1 { g_error_code = a.0 }
    let run =
        fat_get_info active >>= λ info. operation info active >>= λ r. done (conclude active r)
    if a.0 == exit_code_fs_unsupported_drive then done (active, w) else run

  -- The state, the answer in drv[2] and drv[3] if it is set, and the disks. drv[4] is the error code.
  pub fat_handler : FatPacket → Fat → W → Run (Fat × (Option (Option (List ℕ) × ℕ) × W))
  fat_handler (init drive partition fs_type) s w = do
    s' ← handle_init drive partition fs_type s w
    done (s', (none, w))
  fat_handler (read_file path) s w = do r ← handle_read path s w; done (r.0, (r.1, w))
  fat_handler (write_file path buffer buffer_size attrib) s w = do
    let operation = λ (info : FsInfo) (a : Fat).
        fat_save_file m a.current_working_drive info (or_low m.low a.info_buffer) path buffer
          buffer_size (u8 attrib) a.holder w
    r ← handle_change path operation s w
    done (r.0, (none, r.1))
  fat_handler (rename_file old new) s w = do
    let operation = λ (info : FsInfo) (a : Fat).
        fat_rename m a.current_working_drive info (or_low m.low a.info_buffer) old new a.holder w
    r ← handle_change old operation s w
    done (r.0, (none, r.1))
  fat_handler (other command) s w =
      done (record s { g_error_code = exit_code_global_unsupported }, (none, w))
