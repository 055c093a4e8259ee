-- ===== src/Drv/Ide/Dispatch.antt =====
-- The way of a disk request: read of dsk/diskio.c over driver_exec of hardware/driver.c to the
-- handler of drv/IDE/IDEController.c.
use vireo_kernel.Prelude.{
  ℕ, zero, suc, ◌≤◌, ◌≡◌, ◌≢◌, refl, arith, true, false, Bool, if◌then◌else◌, ltb, ◌==◌, u8, bit_or,
  Run, done, stop, fault, load, ◌>>=◌, List, ◌∷◌, ◌++◌, length,
}
use vireo_kernel.Util.{flag_check}
use vireo_kernel.Cpu.Idt.{IdtEntry}
use vireo_kernel.Hardware.Io.{Ports}
use vireo_kernel.Hardware.Pci.{PciDev}
use vireo_kernel.Hardware.Driver.{DriverEntry, Drivers, driver_exec}
use vireo_kernel.Hardware.Driver.Calls.{NoneOf, driver_exec_first}
use vireo_kernel.Dsk.Diskio.{DiskInfo, read, request, answer_of, ide_command_read, driver_type_pci}
use vireo_kernel.Drv.Ide.{Ide, ide_read_pio28}
use vireo_kernel.Drv.Ide.Start.{ide_controller_handler, command, command_read, set_error}

-- What the disk layer makes of the outcome of a read.
abbrev pub exit_code_of : Run ((ℕ × List ℕ) × Ports) → Run ℕ
exit_code_of m = m >>= λ r. done (u8 r.0.0)

module _ (config : ℕ → ℕ) (list : List PciDev) (stub patience : ℕ) (fires : Bool)
    (buffer block : List ℕ) (ide : Ide) (idt : List IdtEntry) where
  -- The handler as the function at its address, the packet left behind as the answer.
  abbrev pub call_ide : ℕ → ℕ → List ℕ → Ports → Run (List ℕ × Ports)
  call_ide handler address packet p =
      if address == handler
      then (ide_controller_handler config list stub patience fires buffer
            (record { drv = packet; buf = block; ide = ide; idt = idt }) p
          >>= λ r. done (r.0.drv, r.1))
      else stop

  -- driver_exec as the disk layer calls it: what comes after the request is not looked at.
  abbrev pub exec_ide : ℕ → Drivers → Ports → ℕ → List ℕ → Run (List ℕ)
  exec_ide handler drivers p type packet =
      driver_exec (call_ide handler) drivers type packet p >>= λ r. done r.0

  handler_read :
      (m : Run ((ℕ × List ℕ) × Ports)) (handler drive lba sectors buf : ℕ) (p : Ports)
      → flag_check ide.ide_flags 1 ≡ 0
      → load ide.drive_info_t drive ≡ done 0
      → buf ≢ 0
      → ide_read_pio28 patience ide (u8 drive) lba (u8 sectors) block p ≡ m
      → (call_ide handler handler (request ide_command_read drive lba sectors buf) p
          >>= (λ r. done r.0)
          >>= answer_of)
        ≡ exit_code_of m
  unfolding ide_controller_handler command command_read request answer_of set_error
  handler_read (done ((zero, b), q)) handler drive lba sectors buf p ready disk given outcome =
      let same : (handler == handler) ≡ true = ground arith in
      let some_buffer : (buf == 0) ≡ false = ground arith in
      rw (same, ready, disk, outcome, some_buffer)
  handler_read (done ((suc code, b), q)) handler drive lba sectors buf p ready disk given outcome =
      let same : (handler == handler) ≡ true = ground arith in
      let is_error : (suc code == 0) ≡ false = ground arith in
      rw (same, ready, disk, outcome, is_error)
  handler_read stop handler drive lba sectors buf p ready disk given outcome =
      let same : (handler == handler) ≡ true = ground arith in rw (same, ready, disk, outcome)
  handler_read fault handler drive lba sectors buf p ready disk given outcome =
      let same : (handler == handler) ≡ true = ground arith in rw (same, ready, disk, outcome)

  -- A read from an ATA disk, whose driver is set up and stands in a list of 64 places before any
  -- other driver of its type, has the outcome of the sector read of that driver, with the number of
  -- the drive and the number of sectors cut to 8 bits: its exit code, endless loop or fault.
  pub read-ide_read_pio28 :
      (front after : List DriverEntry) (e : DriverEntry) (count : ℕ) (disks : List DiskInfo)
      (disk : DiskInfo) (drive lba sectors buf : ℕ) (p : Ports)
      → NoneOf e.type front
      → length (front ++ (e ∷ after)) ≡ 64
      → load disks drive ≡ done disk
      → disk.disktype ≡ 0
      → e.type ≡ bit_or disk.controller_info driver_type_pci
      → drive ≤ 4
      → flag_check ide.ide_flags 1 ≡ 0
      → load ide.drive_info_t drive ≡ done 0
      → buf ≢ 0
      → read
          (exec_ide e.driver (record { drv_list = front ++ (e ∷ after); cur_devices = count }) p)
          disks
          drive
          lba
          sectors
          buf
        ≡ exit_code_of (ide_read_pio28 patience ide (u8 drive) lba (u8 sectors) block p)
  unfolding read request
  read-ide_read_pio28 front after e count disks disk drive lba sectors buf p none size known ata
        type few ready disk_type given =
      let inside : ltb 4 drive ≡ false = ground arith in
      let packet = request ide_command_read drive lba sectors buf in
      rw
        (
          known,
          ata,
          inside,
          ← type,
          driver_exec_first (call_ide e.driver) front after e count packet p none size,
        )
        (handler_read (ide_read_pio28 patience ide (u8 drive) lba (u8 sectors) block p) e.driver
          drive lba sectors buf p ready disk_type given refl)
