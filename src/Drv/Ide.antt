-- ===== src/Drv/Ide.antt =====
-- drv/IDE/IDEController.c: the driver of IDE disks and ATAPI drives. Each loop that waits for the
-- hardware gets a number of rounds, `patience`, and stops for ever when they are used up. A buffer
-- is a list of 16-bit words. The pause of `sleep` leaves no trace on the ports.

pub mod Start
pub mod Requests
pub mod Dispatch
pub mod Sectors
mod Tests
use vireo_kernel.Prelude.{
  ℕ, zero, suc, ◌+◌, ◌-◌, ◌*◌, ◌/◌, ◌%◌, ◌^◌, Bool, false, not, ◌&&◌, ◌||◌, if◌then◌else◌, ltb,
  ◌==◌, u8, u16, u32, ◌<<<◌, ◌>>>◌, bit_or, bit_and, bit_xor, Run, done, stop, fault, load, List,
  [], ◌∷◌,
}
use vireo_kernel.Hardware.Io.{Io, ◌>>=◌, ◌>>◌, pure, inb, outb, insw, outsw}
use vireo_kernel.Hardware.Pic.{pic_eoi}
use vireo_kernel.Dsk.Diskio.{drive_type_ide_pata, drive_type_ide_patapi, drive_type_unknown}

abbrev pub sector_size : ℕ
sector_size = 512

abbrev pub error_reading_drive : ℕ
error_reading_drive = 0x10

abbrev pub ide_flag_irq : ℕ
ide_flag_irq = 1 <<< 2

abbrev pub ata_port_features : ℕ
ata_port_features = 0x01

abbrev pub ata_port_sctrcnt : ℕ
ata_port_sctrcnt = 0x02

abbrev pub ata_port_lbalow : ℕ
ata_port_lbalow = 0x03

abbrev pub ata_port_lbamid : ℕ
ata_port_lbamid = 0x04

abbrev pub ata_port_lbahi : ℕ
ata_port_lbahi = 0x05

abbrev pub ata_port_select : ℕ
ata_port_select = 0x06

abbrev pub ata_port_comstat : ℕ
ata_port_comstat = 0x07

-- The ports of the two channels, the types of the four drives and the flags.
pub record Ide : Type 0 where
  pub drive_info_t : List ℕ
  pub pci_controller : ℕ
  pub p_base_port : ℕ
  pub p_ctrl_port : ℕ
  pub s_base_port : ℕ
  pub s_ctrl_port : ℕ
  pub ide_flags : ℕ

abbrev pub lift : {A : Type 0} → Run A → Io A
lift m p = elim m [ done a ↦ done (a, p) | stop ↦ stop | fault ↦ fault ]

abbrev pub halt : {A : Type 0} → Io A
halt p = stop

unfoldable pub ide_get_port : Ide → ℕ → ℕ
ide_get_port ide drive = if ltb 1 drive then ide.s_base_port else ide.p_base_port

unfoldable pub ide_get_slavebit : ℕ → ℕ
ide_get_slavebit drive = if drive % 2 == 0 then 0 else 1

unfoldable pub ide_clear_flag_bit : ℕ → Ide → Ide
ide_clear_flag_bit flag_bit ide = record ide {
  ide_flags = bit_and ide.ide_flags (u16 (bit_xor 0xffffffff flag_bit));
}

-- The interrupt handler.
unfoldable pub ide_irq : Ide → Io Ide
ide_irq ide = do pic_eoi 0x0f; pure (record ide { ide_flags = bit_or ide.ide_flags ide_flag_irq })

unfoldable pub ide_software_reset : ℕ → Io (Unit {0})
ide_software_reset port = do
  value ← inb port
  outb port (bit_or value 0x04)
  value' ← inb port
  outb port (u8 (bit_and value' 0xfffb))

unfoldable pub ide_wait : Ide → Io (Unit {0})
ide_wait ide = do
  a ← inb ide.p_ctrl_port
  b ← inb ide.p_ctrl_port
  c ← inb ide.p_ctrl_port
  d ← inb ide.p_ctrl_port
  pure tt

-- `while(inb(port) & mask);`
unfoldable pub wait_clear : ℕ → ℕ → ℕ → Io (Unit {0})
wait_clear zero port mask = halt
wait_clear (suc patience) port mask = do
  v ← inb port
  let again = wait_clear patience port mask
  if bit_and v mask == 0 then pure tt else again

-- `while(!(inb(port) & mask));`
unfoldable pub wait_set : ℕ → ℕ → ℕ → Io (Unit {0})
wait_set zero port mask = halt
wait_set (suc patience) port mask = do
  v ← inb port
  let again = wait_set patience port mask
  if bit_and v mask == 0 then again else pure tt

unfoldable pub ide_polling : ℕ → Ide → ℕ → Bool → Io ℕ
ide_polling patience ide port err_test = do
  ide_wait ide
  wait_clear patience (bit_or port ata_port_comstat) 0x80
  status ← inb (bit_or port ata_port_comstat)
  let bad =
      not (bit_and status 0x01 == 0) || not (bit_and status 0x20 == 0) || bit_and status 0x08 == 0
  pure (if err_test && bad then 1 else 0)

-- The registers of a request to a disk: `((((uint8_t)start >> 24U)) & 0x0F)` is as written, the
-- cast before the shift.
unfoldable pub send_request : ℕ → ℕ → ℕ → ℕ → ℕ → Io (Unit {0})
send_request port slavebit start sctrs command = do
  outb (bit_or port ata_port_select)
      (bit_or (bit_or 0xe0 (u8 (slavebit <<< 4))) (bit_and (u8 start >>> 24) 0x0f))
  outb (bit_or port ata_port_features) 0
  outb (bit_or port ata_port_sctrcnt) sctrs
  let lba = bit_and start 0x0fffffff
  outb (bit_or port ata_port_lbalow) (u8 lba)
  outb (bit_or port ata_port_lbamid) (u8 (lba >>> 8))
  outb (bit_or port ata_port_lbahi) (u8 (lba >>> 16))
  outb (bit_or port ata_port_comstat) command

-- The sector loops: `buf_ptr += SECTOR_SIZE` moves a pointer to 16-bit words.
unfoldable pub read_sectors : ℕ → ℕ → ℕ → List ℕ → ℕ → Io (List ℕ)
read_sectors patience port zero buf at = pure buf
read_sectors patience port (suc left) buf at = do
  buf' ← insw port 256 buf at
  wait_set patience (bit_or port ata_port_comstat) 0x40
  read_sectors patience port left buf' (at + sector_size)

unfoldable pub write_sectors : ℕ → ℕ → ℕ → List ℕ → ℕ → Io (Unit {0})
write_sectors patience port zero buf at = pure tt
write_sectors patience port (suc left) buf at = do
  outsw port 256 buf at
  wait_set patience (bit_or port ata_port_comstat) 0x40
  write_sectors patience port left buf (at + sector_size)

unfoldable pub ide_read_pio28 : ℕ → Ide → ℕ → ℕ → ℕ → List ℕ → Io (ℕ × List ℕ)
ide_read_pio28 patience ide drive start sctrs buf =
    let port = ide_get_port ide drive in
    if ltb 3 drive then pure (error_reading_drive, buf) else do
      type ← lift (load ide.drive_info_t drive)
      if not (type == drive_type_ide_pata) then pure (error_reading_drive, buf) else do
        send_request port (ide_get_slavebit drive) start sctrs 0x20
        failed ← ide_polling patience ide port false
        if not (failed == 0)
            then pure (error_reading_drive, buf)
            else do buf' ← read_sectors patience port sctrs buf 0; pure (0, buf')

unfoldable pub ide_write_pio28 : ℕ → Ide → ℕ → ℕ → ℕ → List ℕ → Io ℕ
ide_write_pio28 patience ide drive start sctrs buf =
    let port = ide_get_port ide drive in
    if ltb 3 drive then pure error_reading_drive else do
      type ← lift (load ide.drive_info_t drive)
      if not (type == drive_type_ide_pata) then pure error_reading_drive else do
        send_request port (ide_get_slavebit drive) start sctrs 0x30
        ide_wait ide
        wait_set patience (bit_or port ata_port_comstat) 0x40
        write_sectors patience port sctrs buf 0
        outb (bit_or port ata_port_comstat) 0x30
        pure 0

-- The packet of an ATAPI read as the six words that are sent.
unfoldable pub read_command : ℕ → ℕ → List ℕ
read_command start sctrs =
    0xa8
    ∷ (u8 (start >>> 24) + (u8 (start >>> 16) <<< 8))
    ∷ (u8 (start >>> 8) + (u8 start <<< 8))
    ∷ 0
    ∷ (sctrs <<< 8)
    ∷ 0
    ∷ []

-- `fires` says whether an interrupt of the drive comes while the driver waits for it.
unfoldable pub await_irq : Bool → Ide → Io Ide
await_irq fires ide =
    if not (bit_and ide.ide_flags ide_flag_irq == 0)
    then pure ide
    else if fires
    then ide_irq ide
    else halt

-- `while(!(status = inb(…) & 0x08) && !(status & 0x1))`: the error bit is masked away first.
unfoldable pub wait_request : ℕ → ℕ → Io ℕ
wait_request zero port = halt
wait_request (suc patience) port = do
  v ← inb port
  let again = wait_request patience port
  let status = bit_and v 0x08
  if status == 0 && bit_and status 0x01 == 0 then again else pure status

unfoldable pub ide_read_pio28_atapi : ℕ → Bool → Ide → ℕ → ℕ → ℕ → List ℕ → Io (ℕ × Ide × List ℕ)
ide_read_pio28_atapi patience fires ide drive start sctrs buf =
    let port = ide_get_port ide drive in
    let comstat = bit_or port ata_port_comstat in
    if ltb 3 drive then pure (error_reading_drive, ide, buf) else do
      type ← lift (load ide.drive_info_t drive)
      if not (type == drive_type_ide_patapi) then pure (error_reading_drive, ide, buf) else do
        let ide₁ = ide_clear_flag_bit ide_flag_irq ide
        outb (bit_or port ata_port_select) (
            bit_or (bit_or 0xe0 (u8 (ide_get_slavebit drive <<< 4)))
              (bit_and (u8 start >>> 24) 0x0f))
        ide_wait ide
        outb (bit_or port ata_port_features) 0
        outb (bit_or port ata_port_lbamid) (2048 % 256)
        outb (bit_or port ata_port_lbahi) (2048 / 256)
        outb comstat 0xa0
        wait_clear patience comstat 0x80
        status ← wait_request patience comstat
        if not (bit_and status 0x01 == 0) then pure (error_reading_drive, ide₁, buf) else do
          outsw port 6 (read_command start sctrs) 0
          ide₂ ← await_irq fires ide₁
          hi ← inb (bit_or port ata_port_lbahi)
          lo ← inb (bit_or port ata_port_lbamid)
          if not (bit_or (hi <<< 8) lo == 2048) then halt else do
            buf' ← insw port (sctrs * 2048 / 2) buf 0
            wait_clear patience comstat 0x88
            pure (0, ide_clear_flag_bit ide_flag_irq (ide_clear_flag_bit ide_flag_irq ide₂), buf')
