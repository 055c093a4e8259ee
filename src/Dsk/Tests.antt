-- ===== src/Dsk/Tests.antt =====
-- The disks at concrete drives and sectors.
use vireo_kernel.Prelude.{
  ℕ, ◌+◌, ◌*◌, ◌<◌, ◌≡◌, ◌≢◌, refl, arith, List, [], ◌∷◌, get_or, replicate, length-replicate, done,
  Run,
}
use vireo_kernel.Dsk.Diskio.{convert_drive_id}
use vireo_kernel.Dsk.Diskio.Names.{convert_drive_id_lem}
use vireo_kernel.Dsk.Mbr.{MbrEntryInfo, Mbr, mbr_enumerate, mbr_get_start_lba}
use vireo_kernel.Dsk.Mbr.Entries.{word}
use vireo_kernel.Dsk.Mbr.Enumerate.{mbr_enumerate_lem}

-- A CD drive, a disk, nothing, a disk.
abbrev four_drives : List ℕ
four_drives = 1 ∷ 0 ∷ 0xff ∷ 0 ∷ []

-- HD1 is drive 3, and HD1P2 partition 2 of it.
convert_drive_id_lem_example :
    ((mark : ℕ) (rest : List ℕ)
      → mark ≢ b'P'
      → convert_drive_id four_drives (b'H' ∷ b'D' ∷ b'1' ∷ mark ∷ rest) ≡ done 0x300)
    × ((p : ℕ) (rest : List ℕ)
        → p < 10
        → convert_drive_id four_drives (b'H' ∷ b'D' ∷ b'1' ∷ b'P' ∷ (b'0' + p) ∷ rest)
          ≡ done (0x300 + p))
convert_drive_id_lem_example =
    convert_drive_id_lem four_drives 0 1 (omega arith) (omega arith) (omega arith)

abbrev some_sector : ℕ → List ℕ
some_sector d = replicate 512 d

abbrev sector_read : ℕ → ℕ → ℕ → Run (ℕ × List ℕ)
sector_read d lba sectors = done (0, some_sector d)

abbrev no_entry : MbrEntryInfo
no_entry = record { active = 0; type = 0; start_lba = 0; n_sectors = 0 }

abbrev no_disk : Mbr
no_disk = record { disk = 0; mbr_entry_t = replicate 4 no_entry }

mbr_enumerate_lem_example :
    (disks' : List Mbr) × (mbr_enumerate sector_read four_drives (replicate 4 no_disk)
      ≡ done (disks', 2))
    × ((k p : ℕ)
        → k < 2
        → p < 4
        → mbr_get_start_lba disks' k p
          ≡ done (word (some_sector (get_or (1 ∷ 3 ∷ []) k 0)) (0x1be + p * 16 + 8)))
mbr_enumerate_lem_example =
    mbr_enumerate_lem sector_read some_sector (λ d. refl) (λ d. length-replicate 512 d) four_drives
      (replicate 4 no_disk) refl refl (refl, (refl, (refl, (refl, tt))))
