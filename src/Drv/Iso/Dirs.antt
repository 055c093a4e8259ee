-- ===== src/Drv/Iso/Dirs.antt =====
-- drv/FS/iso9660.c: directories. A record has its length at byte 0, its sector at byte 2, the size
-- at byte 10 and the name from byte 33 on.
use vireo_kernel.Prelude.{
  ℕ, zero, suc, ◌+◌, ◌-◌, ◌*◌, ◌/◌, ◌%◌, ◌^◌, Bool, true, false, not, ◌&&◌, ◌||◌, if◌then◌else◌,
  ltb, leb, ◌==◌, u32, Run, done, stop, dbg_assert, load, List, [], ◌∷◌, drop, length, Option, none,
  some,
}
use vireo_kernel.Prelude
use vireo_kernel.Util.{strlen, strcmp_until}
use vireo_kernel.Dsk.Mbr.{word_at}
use vireo_kernel.Drv.Machine.{Machine, or_low, put_bytes}
use vireo_kernel.Drv.Iso.{
  Iso, pure, ◌>>=◌, ◌>>◌, run, modify, iso_sector_size, exit_code_out_of_memory, iso_allocate_bfr,
  iso_read_drive,
}

-- The loop of `iso_search_dir_bfr` at byte `i`, with `bfr_size` bytes to go: the sector and the size of
-- the file. A round of which the count of bytes does not come to 0 reads on behind the buffer.
pub search_dir_loop : ℕ → List ℕ → ℕ → List ℕ → ℕ → ℕ → Run (ℕ × ℕ)
search_dir_loop zero b bfr_size filename len i = stop
search_dir_loop (suc left) b bfr_size filename len i =
    let next = λ (size : ℕ).
      search_dir_loop left b (u32 (bfr_size + 2 ^ 32 - size)) filename len (i + size) in
    let answer =
      Prelude.◌>>=◌ (word_at b (i + 2))
        (λ lba. Prelude.◌>>=◌ (word_at b (i + 10)) (λ size. done (lba, size))) in
    let round = Prelude.◌>>=◌ (load b i) (λ size. Prelude.◌>>=◌ (dbg_assert (not (size == 0))) (λ _.
      Prelude.◌>>=◌ (strlen (some (drop (i + 33) b))) (λ flen.
        Prelude.◌>>=◌ (if leb len flen then strcmp_until filename (drop (i + 33) b) len else done 1)
          (λ differ. if differ == 0 then answer else next size)))) in
    if bfr_size == 0 then done (0, 0) else round

-- Every record has a byte, so there are no more rounds than bytes in the buffer and one.
pub iso_search_dir_bfr : List ℕ → ℕ → List ℕ → Run (ℕ × ℕ)
iso_search_dir_bfr bfr bfr_size filename =
    Prelude.◌>>=◌ (strlen (some filename))
      (λ len. search_dir_loop (length bfr + 1) bfr bfr_size filename len 0)

module _ {W : Type 0} (m : Machine W) where
  -- The size of the buffer and the buffer.
  pub iso_alloc_dir_buffer : ℕ → Iso (ℕ × Option (List ℕ))
  iso_alloc_dir_buffer dir_size = do
    let whole = u32 (dir_size + (iso_sector_size - dir_size % iso_sector_size))
    ptr ← iso_allocate_bfr m whole
    elim ptr [
      | some b ↦ pure (whole, some b)
      | none ↦ do
        one ← iso_allocate_bfr m iso_sector_size
        pure (elim one [ none ↦ 0 | some b ↦ iso_sector_size ], one)
    ]

  pub iso_get_dir_size : ℕ → ℕ → W → Iso ℕ
  iso_get_dir_size drive dir_lba w = do
    dir ← iso_read_drive m drive dir_lba 1 w
    run (word_at (or_low m.low dir) 10)

  -- The loop of `iso_search_dir`, for `left` reads; `r` is the last answer.
  pub search_sectors : ℕ → ℕ → ℕ → ℕ → List ℕ → ℕ → List ℕ → ℕ × ℕ → W → Run (ℕ × ℕ)
  search_sectors zero drive dir_lba to_read bfr bfr_size filename r w = done r
  search_sectors (suc left) drive dir_lba to_read bfr bfr_size filename r w =
      Prelude.◌>>=◌ (m.read_disk drive dir_lba to_read w) (λ a.
        Prelude.◌>>=◌ (put_bytes bfr 0 a.1) (λ b.
          Prelude.◌>>=◌ (iso_search_dir_bfr b bfr_size filename) (λ found.
            let next =
              search_sectors left drive (u32 (dir_lba + 1)) to_read b bfr_size filename found w in
            if not (found.0 == 0) then done found else next)))

  -- The sector and the size of a file. The sector is not set if the directory is empty; `fsize` is
  -- what the caller's variable holds.
  pub iso_search_dir : ℕ → ℕ → List ℕ → ℕ → W → Iso (ℕ × ℕ)
  iso_search_dir drive dir_lba filename fsize w = do
    size ← iso_get_dir_size drive dir_lba w
    bfr ← iso_alloc_dir_buffer size
    unset ← run (word_at (m.stack 4) 0)
    let rest = if size % iso_sector_size == 0 then 0 else 1
    let nlba = if ltb iso_sector_size bfr.0 then 1 else size / iso_sector_size + rest
    let search = λ (b : List ℕ). run (
        search_sectors nlba drive dir_lba (bfr.0 / iso_sector_size) b bfr.0 filename (unset, fsize)
          w)
    let failed = modify (λ s. record s { gerror = exit_code_out_of_memory }) >> pure (0, fsize)
    elim (bfr.1) [ none ↦ failed | some b ↦ if bfr.0 == 0 then failed else search b ]
