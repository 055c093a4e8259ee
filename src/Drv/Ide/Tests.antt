-- ===== src/Drv/Ide/Tests.antt =====
-- The driver with a disk that answers at once.
use vireo_kernel.Prelude.{
  ℕ, ◌%◌, ◌==◌, if◌then◌else◌, ◌≡◌, refl, arith, List, [], ◌∷◌, length, get_or, replicate, done,
  bit_or, true,
}
use vireo_kernel.Util.{flag_check}
use vireo_kernel.Hardware.Driver.{DriverEntry}
use vireo_kernel.Dsk.Diskio.{DiskInfo, read, driver_type_pci}
use vireo_kernel.Hardware.Io.{Ports}
use vireo_kernel.Drv.Ide.{Ide, read_sectors, ide_read_pio28}
use vireo_kernel.Drv.Ide.Dispatch.{exec_ide, exit_code_of, read-ide_read_pio28}
use vireo_kernel.Drv.Ide.Sectors.{sectors_in, read_sectors_lem}

abbrev one_disk : Ide
one_disk = record {
  drive_info_t = 0 ∷ 0xff ∷ 0xff ∷ 0xff ∷ [];
  pci_controller = 0;
  p_base_port = 0x1f0;
  p_ctrl_port = 0x3f6;
  s_base_port = 0x170;
  s_ctrl_port = 0x376;
  ide_flags = 1;
}

-- A ready drive with nothing but zeros on it.
abbrev zeros_disk : ℕ → ℕ
zeros_disk k = if k % 257 == 256 then 0x40 else 0

abbrev zeros_port : Ports
zeros_port = record { device = zeros_disk; reads = 0; trace = [] }

-- Each read answers 0x40.
abbrev ready_port : Ports
ready_port = record { device = λ _. 0x40; reads = 0; trace = [] }

read_sectors_lem_example :
    (buf' : List ℕ) × (p' : Ports) × (read_sectors 1 0x1f0 2 (replicate 768 0) 0 zeros_port
      ≡ done (buf', p'))
    × (length buf' ≡ length {A = ℕ} (replicate 768 0))
    × ((j : ℕ) → get_or buf' j 0 ≡ sectors_in zeros_disk 0 2 0 (replicate 768 0) j)
read_sectors_lem_example =
    read_sectors_lem 0 0x1f0 2 0 (replicate 768 0) zeros_port (λ k h. ground arith)
      (λ ne. omega arith)

-- The driver of class 1 and subclass 1 at address 0x1000.
abbrev ide_entry : DriverEntry
ide_entry = record { device = 0; type = bit_or 0x101 driver_type_pci; driver = 0x1000 }

abbrev other_entry : DriverEntry
other_entry = record { device = 0; type = 0; driver = 0 }

abbrev ata_disk : DiskInfo
ata_disk = record { disk_id = 0; disktype = 0; controller_info = 0x101 }

abbrev disks : List DiskInfo
disks = ata_disk ∷ replicate 3 (record { disk_id = 1; disktype = 0xff; controller_info = 0x101 })

one_disk-ready : flag_check one_disk.ide_flags 1 ≡ 0
unfolding flag_check
one_disk-ready = refl

read-ide_read_pio28_example :
    read
      (exec_ide
        (λ _. 0)
        []
        0
        3
        true
        []
        (replicate 768 0)
        one_disk
        []
        0x1000
        (record { drv_list = ide_entry ∷ replicate 63 other_entry; cur_devices = 1 })
        ready_port)
      disks
      0
      5
      2
      0x200000
    ≡ exit_code_of (ide_read_pio28 3 one_disk 0 5 2 (replicate 768 0) ready_port)
read-ide_read_pio28_example =
    read-ide_read_pio28 (λ _. 0) [] 0 3 true [] (replicate 768 0) one_disk [] []
      (replicate 63 other_entry) ide_entry 1 disks ata_disk 0 5 2 0x200000 ready_port tt refl refl
      refl refl (omega arith) one_disk-ready refl (omega arith)
