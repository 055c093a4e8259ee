-- ===== src/Dsk/Mbr.antt =====
-- dsk/mbr.c: the partition tables of the hard disks. A sector is a list of bytes; the answer of
-- `read` is a parameter, with the exit code and the buffer.
pub mod Entries
pub mod Enumerate
use vireo_kernel.Prelude.{
  ℕ, zero, suc, ◌+◌, ◌*◌, ◌^◌, Bool, not, if◌then◌else◌, ltb, ◌==◌, u8, ◌<<<◌, bit_and, Run, done,
  stop, fault, ◌>>=◌, load, store, rounds, List, [], ◌∷◌, replicate,
}
use vireo_kernel.Dsk.Diskio.{drive_type_ide_pata}

abbrev pub mbr_partentry_start : ℕ
mbr_partentry_start = 0x1be

abbrev pub mbr_partentry_size : ℕ
mbr_partentry_size = 16

abbrev pub max_drives : ℕ
max_drives = 4

pub record MbrEntryInfo : Type 0 where
  pub active : ℕ
  pub type : ℕ
  pub start_lba : ℕ
  pub n_sectors : ℕ

pub record Mbr : Type 0 where
  pub disk : ℕ
  pub mbr_entry_t : List MbrEntryInfo

-- `((uint32_t *) p)[k]`, in the byte order of the machine
unfoldable pub word_at : List ℕ → ℕ → Run ℕ
word_at bytes i = do
  b0 ← load bytes i
  b1 ← load bytes (i + 1)
  b2 ← load bytes (i + 2)
  b3 ← load bytes (i + 3)
  done (b0 + b1 * 2 ^ 8 + b2 * 2 ^ 16 + b3 * 2 ^ 24)

-- One round of the loop over the partition entries.
unfoldable pub read_entry : List ℕ → ℕ → Mbr → Run Mbr
read_entry mbr j m = do
  let entry = mbr_partentry_start + j * mbr_partentry_size
  w0 ← word_at mbr entry
  w1 ← word_at mbr (entry + 4)
  w2 ← word_at mbr (entry + 8)
  w3 ← word_at mbr (entry + 12)
  entries ← store m.mbr_entry_t j (record {
    active = u8 (bit_and w0 0xff);
    type = u8 (bit_and w1 0xff);
    start_lba = w2;
    n_sectors = w3;
  })
  done (record m { mbr_entry_t = entries })

unfoldable pub read_entries : List ℕ → Mbr → Run Mbr
read_entries mbr m = rounds 4 0 (λ j d. read_entry mbr j d) m

-- The loop of `MBR_getIDEDrives` at drive `i`, with the number of disks so far.
unfoldable pub get_drives_from : List ℕ → ℕ → ℕ → List Mbr → ℕ → Run (List Mbr × ℕ)
get_drives_from drives zero i disks n = done (disks, n)
get_drives_from drives (suc left) i disks n = do
  t ← load drives i
  let rest = get_drives_from drives left (i + 1)
  if t == drive_type_ide_pata
      then (load disks n >>= λ d.
          store disks n (record d { disk = i }) >>= λ disks'. rest disks' (n + 1))
      else rest disks n

unfoldable pub mbr_get_ide_drives : List ℕ → List Mbr → Run (List Mbr × ℕ)
mbr_get_ide_drives drives disks = get_drives_from drives 4 0 disks 0

-- The loop of `MBR_enumerate` at disk `i`: it ends at the first error.
unfoldable pub enumerate_from : (ℕ → ℕ → ℕ → Run (ℕ × List ℕ)) → ℕ → ℕ → List Mbr → Run (List Mbr)
enumerate_from read zero i disks = done disks
enumerate_from read (suc left) i disks = do
  d ← load disks i
  r ← read d.disk 0 1
  let rest = enumerate_from read left (i + 1)
  if not (r.0 == 0)
      then done disks
      else do d' ← read_entries r.1 d; disks' ← store disks i d'; rest disks'

unfoldable pub mbr_enumerate :
    (ℕ → ℕ → ℕ → Run (ℕ × List ℕ)) → List ℕ → List Mbr → Run (List Mbr × ℕ)
mbr_enumerate read drives disks = do
  r ← mbr_get_ide_drives drives disks
  if ltb r.1 1 then done r else (enumerate_from read r.1 0 r.0 >>= λ disks'. done (disks', r.1))

unfoldable pub mbr_get_start_lba : List Mbr → ℕ → ℕ → Run ℕ
mbr_get_start_lba disks disk partition = do
  d ← load disks disk
  e ← load d.mbr_entry_t partition
  done e.start_lba
