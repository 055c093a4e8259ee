-- ===== src/Drv/Ide/Start.antt =====
-- drv/IDE/IDEController.c: finding the ports and the drives, and the command handler.
use vireo_kernel.Prelude.{
  ℕ, zero, suc, ◌+◌, ◌*◌, ◌^◌, Bool, not, ◌&&◌, ◌||◌, if◌then◌else◌, ltb, ◌==◌, u8, u16, u32, ◌<<<◌,
  bit_or, bit_and, bit_xor, Run, done, stop, fault, load, store, rounds, List, [], ◌∷◌,
}
use vireo_kernel.Prelude
use vireo_kernel.Util.{flag_check}
use vireo_kernel.Hardware.Io.{Io, ◌>>=◌, ◌>>◌, pure, inb, outb, insw}
use vireo_kernel.Hardware.Pci.{PciDev, pci_get_bar, pci_get_reg0}
use vireo_kernel.Cpu.Idt.{IdtEntry, idt_add_handler}
use vireo_kernel.Dsk.Diskio.{
  drive_type_ide_pata, drive_type_ide_patapi, drive_type_unknown, drv_command_init,
  ide_command_read, ide_command_write, ide_command_reportdrives,
}
use vireo_kernel.Drv.Ide.{
  Ide, lift, halt, ide_get_port, ide_get_slavebit, ide_software_reset, wait_clear, ide_read_pio28,
  ide_write_pio28, ide_read_pio28_atapi, ata_port_select, ata_port_lbamid, ata_port_lbahi,
  ata_port_comstat,
}

-- `(uint16_t) (bar + usual*(!bar))`, where the low two bits of the register are not looked at
unfoldable pub port_of : ℕ → ℕ → ℕ
port_of bar usual = let b = bit_and bar 0xfffffffc in u16 (b + (if b == 0 then usual else 0))

unfoldable pub ide_enumerate : (ℕ → ℕ) → Ide → Ide
unfolding port_of
ide_enumerate config ide = record ide {
  p_base_port = port_of (pci_get_bar config ide.pci_controller 4) 0x1f0;
  p_ctrl_port = port_of (pci_get_bar config ide.pci_controller 5) 0x3f6;
  s_base_port = port_of (pci_get_bar config ide.pci_controller 6) 0x170;
  s_ctrl_port = port_of (pci_get_bar config ide.pci_controller 7) 0x376;
}

-- The loop that waits for the error or the data request bit.
unfoldable pub wait_data : ℕ → ℕ → Io (Unit {0})
wait_data zero port = halt
wait_data (suc patience) port = do
  status ← inb port
  let again = wait_data patience port
  if bit_and status 0x01 == 0 && bit_and status 0x08 == 0 then again else pure tt

-- The type of a drive from the signature in its registers.
unfoldable pub type_of : ℕ → ℕ → ℕ
type_of hi lo =
    if hi == 0xeb && lo == 0x14
    then drive_type_ide_patapi
    else if hi == 0x96 && lo == 0x69
    then drive_type_ide_patapi
    else if not (hi == 0 && lo == 0)
    then drive_type_unknown
    else drive_type_ide_pata

-- `buffer` is the block of 256 words that `kmalloc` returned, whatever it holds.
unfoldable pub ide_get_drive_type : ℕ → List ℕ → ℕ → ℕ → Io ℕ
unfolding type_of
ide_get_drive_type patience buffer port slavebit =
    let comstat = bit_or port ata_port_comstat in
    do
      outb (bit_or port ata_port_select) (bit_or 0xa0 (u8 (slavebit <<< 4)))
      lo ← inb (bit_or port ata_port_lbamid)
      hi ← inb (bit_or port ata_port_lbahi)
      let type = type_of hi lo
      if not (type == drive_type_ide_pata) then pure type else do
        outb comstat 0xec
        status ← inb comstat
        if status == 0 then pure drive_type_unknown else do
          wait_clear patience comstat 0x80
          wait_data patience comstat
          info ← insw port 255 buffer 0
          pure type

-- The loop over the drives of `IDEDriverInit`.
unfoldable pub set_types : ℕ → List ℕ → ℕ → ℕ → Ide → Io Ide
set_types patience buffer zero drive ide = pure ide
set_types patience buffer (suc left) drive ide = do
  type ← ide_get_drive_type patience buffer (ide_get_port ide drive) (ide_get_slavebit drive)
  types ← lift (store ide.drive_info_t drive type)
  set_types patience buffer left (drive + 1) (record ide { drive_info_t = types })

-- `stub` is the address of ASM_IDE_IRQ. `~(DRIVER_TYPE_PCI)` clears bit 24 of the device word.
unfoldable pub ide_driver_init :
    (ℕ → ℕ) → List PciDev → ℕ → ℕ → List ℕ → ℕ → Ide → List IdtEntry → Io (Ide × List IdtEntry)
ide_driver_init config list stub patience buffer device ide idt =
    let controller = bit_and device 0xfeffffff in
    do
      reg0 ← lift (pci_get_reg0 list controller)
      if reg0 == 0x24cb8086 then halt else do
        let ide₁ = ide_enumerate config (record ide { pci_controller = controller })
        ide_software_reset ide₁.p_ctrl_port
        ide_software_reset ide₁.s_ctrl_port
        let idt' = idt_add_handler (idt_add_handler idt 0x2e stub) 0x2f stub
        outb ide₁.p_ctrl_port 2
        outb ide₁.s_ctrl_port 2
        ide₂ ← set_types patience buffer 4 0 ide₁
        outb ide₂.p_ctrl_port 0
        outb ide₂.s_ctrl_port 0
        pure (record ide₂ { ide_flags = bit_or ide₂.ide_flags 1 }, idt')

unfoldable pub ide_report_drives : Ide → List ℕ → Run (List ℕ)
ide_report_drives ide drive_list =
    rounds 4 0 (λ i l. Prelude.◌>>=◌ (load ide.drive_info_t i) (λ t. store l i t)) drive_list

-- What a command works on: the packet, the memory that its pointer stands for, the driver.
pub record Call : Type 0 where
  pub drv : List ℕ
  pub buf : List ℕ
  pub ide : Ide
  pub idt : List IdtEntry

-- The packet after an error.
unfoldable pub set_error : ℕ → List ℕ → Run (List ℕ)
set_error error drv =
    if error == 0 then done drv else Prelude.◌>>=◌ (store drv 4 0) (λ d. store d 1 error)

module _ (config : ℕ → ℕ) (list : List PciDev) (stub patience : ℕ) (fires : Bool)
    (buffer : List ℕ) where
  -- The command READ: the exit code and what changed.
  unfoldable pub command_read : Call → Io (ℕ × Call)
  command_read c = do
    drive ← lift (load c.drv 1)
    start ← lift (load c.drv 2)
    sctrs ← lift (load c.drv 3)
    type ← lift (load c.ide.drive_info_t drive)
    if type == drive_type_ide_pata
        then (ide_read_pio28 patience c.ide (u8 drive) start (u8 sctrs) c.buf >>= λ r.
            pure (r.0, record c { buf = r.1 }))
        else if type == drive_type_ide_patapi
        then (ide_read_pio28_atapi patience fires c.ide (u8 drive) start (u8 sctrs) c.buf >>= λ r.
            pure (r.0, record c { ide = r.1; buf = r.2 }))
        else pure (0, c)

  -- The command WRITE: the exit code of the write itself is dropped.
  unfoldable pub command_write : Call → Io (ℕ × Call)
  command_write c = do
    drive ← lift (load c.drv 1)
    start ← lift (load c.drv 2)
    sctrs ← lift (load c.drv 3)
    type ← lift (load c.ide.drive_info_t drive)
    if not (type == drive_type_ide_pata)
        then pure (1, c)
        else (ide_write_pio28 patience c.ide (u8 drive) start (u8 sctrs) c.buf >>= λ r. pure (0, c))

  unfoldable pub command : ℕ → Call → Io (ℕ × Call)
  unfolding command_read command_write
  command number c =
      if number == drv_command_init
      then (lift (load c.drv 1) >>= λ device.
          ide_driver_init config list stub patience buffer device c.ide c.idt >>= λ r.
          pure (0, record c { ide = r.0; idt = r.1 }))
      else if number == ide_command_read
      then command_read c
      else if number == ide_command_write
      then command_write c
      else if number == ide_command_reportdrives
      then (lift (ide_report_drives c.ide c.buf) >>= λ drives. pure (0, record c { buf = drives }))
      else pure (0x0a, c)

  unfoldable pub ide_controller_handler : Call → Io Call
  unfolding command set_error
  ide_controller_handler c = do
    number ← lift (load c.drv 0)
    if not (number == drv_command_init) && not (flag_check c.ide.ide_flags 1 == 0)
        then pure c
        else do
          r ← command number c
          drv ← lift (set_error r.0 r.1.drv)
          pure (record r.1 { drv = drv })
