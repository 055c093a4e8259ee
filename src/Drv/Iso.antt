-- ===== src/Drv/Iso.antt =====
-- drv/FS/iso9660.c: the state of the driver and its start. The disk is only read; a buffer is the
-- list of its bytes, so giving it back has no effect.
pub mod Table
pub mod Dirs
pub mod Paths
pub mod Descriptor
mod Tests
use vireo_kernel.Prelude.{
  ℕ, zero, suc, ◌+◌, ◌-◌, ◌*◌, ◌/◌, ◌%◌, ◌^◌, Bool, true, false, not, ◌&&◌, ◌||◌, if◌then◌else◌,
  ltb, ◌==◌, u8, u16, u32, ◌>>>◌, ◌<<<◌, bit_or, Run, done, stop, fault, load, store, dbg_assert,
  List, [], ◌∷◌, ◌++◌, Option, none, some,
}
use vireo_kernel.Prelude
use vireo_kernel.Util.{memcpy}
use vireo_kernel.Dsk.Mbr.{word_at}
use vireo_kernel.Drv.Machine.{Machine, or_low, half_at, fetch, put_bytes}

abbrev pub iso_sector_size : ℕ
iso_sector_size = 2048

abbrev pub cd_info_size : ℕ
cd_info_size = 512

abbrev pub vol_ident_size : ℕ
vol_ident_size = 32

abbrev pub first_descriptor_lba : ℕ
first_descriptor_lba = 0x10

abbrev pub vd_type_primary : ℕ
vd_type_primary = 0x01

abbrev pub vd_type_terminator : ℕ
vd_type_terminator = 0xff

abbrev pub exit_code_out_of_memory : ℕ
exit_code_out_of_memory = 0x0b

abbrev pub ide_driver_max_drives : ℕ
ide_driver_max_drives = 4

pub record CdInfo : Type 0 where
  pub path_table_lba : ℕ
  pub path_table_size : ℕ
  pub rootdir_lba : ℕ
  pub volident : List ℕ
  pub vol_size : ℕ

-- The static variables, those of iso_search_in_path_table and of strtok among them.
pub record IsoState : Type 0 where
  pub atapi_devices : ℕ
  pub n_atapi_devs : ℕ
  pub cd_info_ptr : Option CdInfo
  pub gerror : ℕ
  pub loc : ℕ
  pub lba : ℕ
  pub holder : Option (List ℕ)

-- Code that changes the state.
abbrev pub Iso : Type 0 → Type 0
Iso A = IsoState → Run (A × IsoState)

abbrev pub pure : {A : Type 0} → A → Iso A
pure a s = done (a, s)

infixl 5 ◌>>=◌ ◌>>◌
abbrev pub ◌>>=◌ : {A B : Type 0} → Iso A → (A → Iso B) → Iso B
◌>>=◌ m f s = Prelude.◌>>=◌ (m s) (λ r. f r.0 r.1)

abbrev pub ◌>>◌ : {B : Type 0} → Iso (Unit {0}) → Iso B → Iso B
m >> k = m >>= λ _. k

-- Code that leaves the state as it is.
abbrev pub run : {A : Type 0} → Run A → Iso A
run m s = Prelude.◌>>=◌ m (λ a. done (a, s))

abbrev pub get : Iso IsoState
get s = done (s, s)

abbrev pub modify : (IsoState → IsoState) → Iso (Unit {0})
modify f s = done (tt, f s)

module _ {W : Type 0} (m : Machine W) where
  -- A block of the heap, or pages.
  pub iso_allocate_bfr : ℕ → Iso (Option (List ℕ))
  iso_allocate_bfr size s = elim (m.block_for size) [
    | some ptr ↦ done (some ptr, s)
    | none ↦ elim (m.pages size) [
      | some ptr ↦ done (some ptr, s)
      | none ↦ done (none, record s { gerror = exit_code_out_of_memory })
    ]
  ]

  -- A new buffer with what is read from the disk; the exit code of the read is not looked at.
  pub iso_read_drive : ℕ → ℕ → ℕ → W → Iso (Option (List ℕ))
  iso_read_drive drive lba sctr_read w = do
    buf ← iso_allocate_bfr (u32 (iso_sector_size * sctr_read))
    elim buf [
      | none ↦ (modify (λ s. record s { gerror = exit_code_out_of_memory }) >> pure none)
      | some b ↦
          (run (m.read_disk drive lba sctr_read w) >>= λ r.
          run (put_bytes b 0 r.1) >>= λ b'. pure (some b'))
    ]

  -- The loop of `iso_search_descriptor` at sector `lba`, with `left` sectors before 0xFF.
  pub search_descriptor_from : ℕ → ℕ → ℕ → List ℕ → ℕ → W → Run (List ℕ)
  search_descriptor_from zero lba drive buffer type w = stop
  search_descriptor_from (suc left) lba drive buffer type w =
      let next = λ (b : List ℕ). search_descriptor_from left (lba + 1) drive b type w in
      Prelude.◌>>=◌ (m.read_disk drive lba 1 w) (λ r. Prelude.◌>>=◌ (put_bytes buffer 0 r.1) (λ b.
        Prelude.◌>>=◌ (dbg_assert (r.0 == 0)) (λ _.
          Prelude.◌>>=◌ (load b 0)
            (λ t. if t == type || t == vd_type_terminator then done b else next b))))

  pub iso_search_descriptor : ℕ → List ℕ → ℕ → W → Run (List ℕ)
  iso_search_descriptor drive buffer type w =
      search_descriptor_from (0xff - first_descriptor_lba) first_descriptor_lba drive buffer type w

-- What the volume descriptor says.
pub iso_save_pvd_data : List ℕ → CdInfo → Run CdInfo
iso_save_pvd_data pvd info = Prelude.◌>>=◌ (fetch pvd 40 vol_ident_size) (λ ident.
    Prelude.◌>>=◌ (word_at pvd 80) (λ size. Prelude.◌>>=◌ (half_at pvd 128) (λ block.
      Prelude.◌>>=◌ (dbg_assert (block == iso_sector_size)) (λ _.
        Prelude.◌>>=◌ (word_at pvd 132) (λ table_size. Prelude.◌>>=◌ (word_at pvd 140) (λ table_lba.
          Prelude.◌>>=◌ (word_at pvd 158) (λ root.
            let rest = if table_size % iso_sector_size == 0 then 0 else 1 in
            done (record {
              path_table_lba = table_lba;
              path_table_size = table_size / iso_sector_size + rest;
              rootdir_lba = root;
              volident = ident ++ (0 ∷ []);
              vol_size = size;
            }))))))))

-- `blank` is what a new buffer for the information holds.
module _ {W : Type 0} (m : Machine W) (blank : CdInfo) where
  pub init_info : Iso (Unit {0})
  init_info = do
    s ← get
    elim (s.cd_info_ptr) [
      | some info ↦ pure tt
      | none ↦ do
        ptr ← iso_allocate_bfr m cd_info_size
        modify (λ t. record t { cd_info_ptr = elim ptr [ none ↦ none | some p ↦ some blank ] })
    ]

  pub start_drive : ℕ → List ℕ → W → Iso (Unit {0})
  start_drive drive buffer w = do
    pvd ← run (iso_search_descriptor m drive buffer vd_type_primary w)
    first ← run (load pvd 0)
    run (dbg_assert (first == vd_type_primary))
    s ← get
    info ← run (iso_save_pvd_data pvd (or_low blank s.cd_info_ptr))
    let devices =
        if ltb s.n_atapi_devs ide_driver_max_drives
        then bit_or s.atapi_devices (1 <<< drive)
        else s.atapi_devices
    modify (λ t. record t { cd_info_ptr = some info; atapi_devices = devices })

  pub iso_init : ℕ → W → Iso (Unit {0})
  iso_init drive w = do
    s ← get
    let known = not (s.atapi_devices >>> drive == 0)
    let start =
        init_info
        >> (iso_allocate_bfr m iso_sector_size >>= λ buffer. get >>= λ t.
            if not (t.gerror == 0)
            then pure tt
            else run (Prelude.of_option buffer) >>= λ b. start_drive drive b w)
    if known then pure tt else start
