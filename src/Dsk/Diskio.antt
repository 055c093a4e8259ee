-- ===== src/Dsk/Diskio.antt =====
-- dsk/diskio.c: the drives, their names, and the requests to their driver. The answer of a driver
-- is a parameter, `exec type packet` with the packet that the driver leaves; driver_exec itself is
-- modelled with the driver list.
pub mod Names
use vireo_kernel.Prelude.{
  ℕ, zero, suc, ◌+◌, ◌-◌, ◌*◌, ◌/◌, ◌%◌, ◌^◌, Bool, ◌||◌, not, if◌then◌else◌, ltb, ◌==◌, u8, u16,
  ◌<<<◌, bit_or, bit_and, Run, done, stop, fault, ◌>>=◌, load, store, rounds, List, [], ◌∷◌,
}
use vireo_kernel.Util.{strcmp_until, strdigit_to_int}

abbrev pub diskio_max_drives : ℕ
diskio_max_drives = 4

abbrev pub drive_type_ide_pata : ℕ
drive_type_ide_pata = 0x00

abbrev pub drive_type_ide_patapi : ℕ
drive_type_ide_patapi = 0x01

abbrev pub drive_type_unknown : ℕ
drive_type_unknown = 0xff

abbrev pub drv_command_init : ℕ
drv_command_init = 0x00

abbrev pub ide_command_read : ℕ
ide_command_read = 0x10

abbrev pub ide_command_write : ℕ
ide_command_write = 0x11

abbrev pub ide_command_reportdrives : ℕ
ide_command_reportdrives = 0x12

abbrev pub driver_type_pci : ℕ
driver_type_pci = 0x01 <<< 24

pub record DiskInfo : Type 0 where
  pub disk_id : ℕ
  pub disktype : ℕ
  pub controller_info : ℕ

-- The loop of `diskio_init`: `drives` is what the driver reported.
unfoldable pub set_disk : List ℕ → ℕ → ℕ → List DiskInfo → Run (List DiskInfo)
set_disk drives info i disks = do
  type ← load drives i
  store disks i (record { disk_id = i; disktype = u8 type; controller_info = u16 info })

-- `info` is the class and subclass of the first device that pciGetDevices lists, `report` the
-- drive list that the driver writes on the command IDE_COMMAND_REPORTDRIVES.
unfoldable pub diskio_init : ℕ → (ℕ → ℕ → Run (List ℕ)) → List DiskInfo → Run (List DiskInfo)
unfolding set_disk
diskio_init info report disks = do
  drives ← report (bit_or info driver_type_pci) ide_command_reportdrives
  rounds diskio_max_drives 0 (λ i d. set_disk drives info i d) disks

unfoldable pub diskio_report_drives : List DiskInfo → List ℕ → Run (List ℕ)
diskio_report_drives disks drive_list =
    rounds 4 0 (λ i l. load disks i >>= λ d. store l i d.disktype) drive_list

-- The packet of a request; `NULL` as a command is the number of DRV_COMMAND_INIT.
unfoldable pub request : ℕ → ℕ → ℕ → ℕ → ℕ → List ℕ
request command drive lba sectors buf = command ∷ drive ∷ lba ∷ sectors ∷ buf ∷ []

-- `if(drv[4] == NULL) return (uint8_t) drv[1];`
unfoldable pub answer_of : List ℕ → Run ℕ
answer_of drv = do buf ← load drv 4; error ← load drv 1; done (if buf == 0 then u8 error else 0)

unfoldable pub read : (ℕ → List ℕ → Run (List ℕ)) → List DiskInfo → ℕ → ℕ → ℕ → ℕ → Run ℕ
unfolding request answer_of
read exec disks drive lba sectors buf = do
  disk ← load disks drive
  let is_ide = disk.disktype == drive_type_ide_pata || disk.disktype == drive_type_ide_patapi
  if ltb diskio_max_drives drive then done 3 else do
    drv ←
        exec (bit_or disk.controller_info driver_type_pci)
          (request (if is_ide then ide_command_read else 0) drive lba sectors buf)
    answer_of drv

unfoldable pub write : (ℕ → List ℕ → Run (List ℕ)) → List DiskInfo → ℕ → ℕ → ℕ → ℕ → Run ℕ
unfolding request answer_of
write exec disks drive lba sectors buf = do
  disk ← load disks drive
  let is_ide = disk.disktype == drive_type_ide_pata
  drv ←
      exec (bit_or disk.controller_info driver_type_pci)
        (request (if is_ide then ide_command_write else 0) drive lba sectors buf)
  answer_of drv

unfoldable pub drive_type : List ℕ → Run ℕ
drive_type id = do
  hd ← strcmp_until id (b'H' ∷ b'D' ∷ 0 ∷ []) 2
  if hd == 0 then done drive_type_ide_pata else do
    cd ← strcmp_until id (b'C' ∷ b'D' ∷ 0 ∷ []) 2
    done (if cd == 0 then drive_type_ide_patapi else 0xff)

-- The loop of `to_actual_drive` over the drives from number `i` on.
unfoldable pub nth_drive : List ℕ → ℕ → ℕ → ℕ → ℕ → ℕ
nth_drive [] drive type nfound i = 0xff
nth_drive (t ∷ drivelist) drive type nfound i =
    let found = u8 (nfound + 1) in
    let rest = nth_drive drivelist drive type in
    if t == type then (if found == drive then i else rest found (i + 1)) else rest nfound (i + 1)

unfoldable pub to_actual_drive : List ℕ → ℕ → ℕ → ℕ
unfolding nth_drive
to_actual_drive drivelist drive type = nth_drive drivelist (u8 (drive + 1)) type 0 0

unfoldable pub convert_drive_id : List ℕ → List ℕ → Run ℕ
convert_drive_id drivelist id = do
  type ← drive_type id
  if type == 0xff then done type else do
    digit ← load id 2
    let drive = strdigit_to_int digit
    if drive == 0x0a then done 0xffff else do
      let result = u16 (bit_or 0 (bit_and (to_actual_drive drivelist drive type) 0xff <<< 8))
      mark ← load id 3
      if not (mark == b'P') then done result else do
        part ← load id 4
        let number = strdigit_to_int part
        if number == 0x0a then done 0xffff else done (u16 (bit_or result (bit_and number 0xff)))
