-- ===== src/Drv/Iso/Table/Index.antt =====
-- drv/FS/iso9660.c: entries of the path table by their number.
use vireo_kernel.Prelude.{
  ℕ, zero, suc, ◌+◌, ◌^◌, ◌≤◌, ◌<◌, ◌≡◌, ◌≢◌, refl, arith, sym, ap, ◌∙◌, ◌==◌, ltb, true, false,
  u16, u32, done, stop, load, List, [], ◌∷◌, ◌++◌, length, append_nil, append_assoc, length-append,
  load_middle, some,
}
use vireo_kernel.Drv.Machine.{Machine, put_bytes}
use vireo_kernel.Drv.Machine.Buffers.{put_over}
use vireo_kernel.Drv.Iso.{IsoState, CdInfo, iso_allocate_bfr, iso_read_drive}
use vireo_kernel.Drv.Iso.Table.{
  entry_step, count_index_loop, iso_count_index, info_of, find_index_loop, iso_find_index_within,
}

-- An entry with its padding byte: the first byte is the length of the name.
abbrev pub IsTableEntry : List ℕ → Type 0
IsTableEntry [] = ⊥
IsTableEntry (n ∷ bytes) = (n < 256) × (length (n ∷ bytes) ≡ entry_step n)

abbrev pub AllTableEntries : List (List ℕ) → Type 0
AllTableEntries [] = Unit
AllTableEntries (e ∷ es) = IsTableEntry e × AllTableEntries es

abbrev pub table_of : List (List ℕ) → List ℕ
table_of [] = []
table_of (e ∷ es) = e ++ table_of es

count_index_step :
    (left index until at n : ℕ) (buffer : List ℕ)
    → at < 2048
    → index ≢ until
    → load buffer at ≡ done n
    → count_index_loop (suc left) index until buffer at
      ≡ count_index_loop left (u16 (index + 1)) until buffer (u16 (at + entry_step n))
unfolding count_index_loop
count_index_step left index until at n buffer inside before first =
    let a : ltb at 2048 ≡ true = ground arith in
    let b : (index == until) ≡ false = ground arith in rw (a, b, first)

count_index_hit :
    (left index at : ℕ) (buffer : List ℕ)
    → at < 2048
    → count_index_loop (suc left) index index buffer at ≡ done (index, at)
unfolding count_index_loop
count_index_hit left index at buffer inside =
    let a : ltb at 2048 ≡ true = ground arith in
    let b : (index == index) ≡ true = ground arith in rw (a, b)

count_index_loop_lem :
    (es : List (List ℕ)) (left index : ℕ) (pre rest : List ℕ)
    → AllTableEntries es
    → length es < left
    → index + length es < 2 ^ 16
    → length pre + length (table_of es) < 2048
    → count_index_loop left index (index + length es) (pre ++ (table_of es ++ rest)) (length pre)
      ≡ done (index + length es, length pre + length (table_of es))
count_index_loop_lem es zero index pre rest all fuel small inside = absurd (omega arith)
count_index_loop_lem [] (suc left) index pre rest all fuel small inside =
    let z : index + 0 ≡ index = omega arith in
    let y : length pre + 0 ≡ length pre = omega arith in
    rw (z, y) (count_index_hit left index (length pre) (pre ++ rest) (omega arith))
count_index_loop_lem ([] ∷ es) (suc left) index pre rest (is, all) fuel small inside = absurd is
count_index_loop_lem ((n ∷ bytes) ∷ es) (suc left) index pre rest ((byte, step), all) fuel small
      inside =
    let e = n ∷ bytes in
    let la = length-append e (table_of es) in
    let lp = length-append pre e in
    let tail =
      count_index_loop_lem es left (index + 1) (pre ++ e) rest all (omega arith) (omega arith)
        (omega arith) in
    let i1 : index + suc (length es) ≡ index + 1 + length es = omega arith in
    let i2 : u16 (index + 1) ≡ index + 1 = omega arith in
    let at : u16 (length pre + entry_step n) ≡ length (pre ++ e) = omega arith in
    let end : length pre + length (e ++ table_of es) ≡ length (pre ++ e) + length (table_of es) =
      omega arith in
    let whole : pre ++ ((e ++ table_of es) ++ rest) ≡ (pre ++ e) ++ (table_of es ++ rest) =
      ap (λ t. pre ++ t) (append_assoc e (table_of es) rest)
      ∙ sym (append_assoc pre e (table_of es ++ rest)) in
    let first : load (pre ++ ((e ++ table_of es) ++ rest)) (length pre) ≡ done n =
      load_middle pre n ((bytes ++ table_of es) ++ rest) in
    count_index_step left index (index + suc (length es)) (length pre) n
      (pre ++ ((e ++ table_of es) ++ rest)) (omega arith) (omega arith) first
    ∙ rw (i1, i2, at, end, whole) tail

-- iso_count_index gives the place of the entry of a number, where the first entry has number 0.
pub iso_count_index_lem :
    (es : List (List ℕ)) (rest : List ℕ)
    → AllTableEntries es
    → length (table_of es) < 2048
    → length es < 2048
    → iso_count_index 0 (length es) (table_of es ++ rest) ≡ done (length es, length (table_of es))
unfolding iso_count_index
iso_count_index_lem es rest all inside few =
    let z : 0 + length es ≡ length es = omega arith in
    let y : 0 + length (table_of es) ≡ length (table_of es) = omega arith in
    rw (z, y) at (count_index_loop_lem es 2048 0 [] rest all few (omega arith) (omega arith))

module _ {W : Type 0} (m : Machine W) (null_info : CdInfo) (drive index : ℕ) (s : IsoState)
    (w : W) where
  find_index_next :
      (left lba total i n at : ℕ) (b : List ℕ)
      → lba < (info_of m null_info s).path_table_size
      → iso_read_drive m drive (u32 ((info_of m null_info s).path_table_lba + lba)) 1 w s
        ≡ done (some b, s)
      → iso_count_index i index b ≡ done (n, at)
      → 2048 ≤ at
      → find_index_loop m null_info (suc left) drive index lba total i w s
        ≡ find_index_loop m null_info left drive index (lba + 1) (u16 (total + n)) 0 w s
  unfolding find_index_loop
  find_index_next left lba total i n at b more read count full =
      let go : ltb lba (info_of m null_info s).path_table_size ≡ true = ground arith in
      let over : ltb at 2048 ≡ false = ground arith in rw (go, read, count, over)

  find_index_again :
      (left lba total i n at : ℕ) (b : List ℕ)
      → lba < (info_of m null_info s).path_table_size
      → iso_read_drive m drive (u32 ((info_of m null_info s).path_table_lba + lba)) 1 w s
        ≡ done (some b, s)
      → iso_count_index i index b ≡ done (n, at)
      → at < 2048
      → total + n ≢ index
      → find_index_loop m null_info (suc left) drive index lba total i w s
        ≡ find_index_loop m null_info left drive index lba total n w s
  unfolding find_index_loop
  find_index_again left lba total i n at b more read count inside differ =
      let go : ltb lba (info_of m null_info s).path_table_size ≡ true = ground arith in
      let a : ltb at 2048 ≡ true = ground arith in
      let d : (total + n == index) ≡ false = ground arith in rw (go, read, count, a, d)

  find_index_out :
      (lba total i : ℕ) → find_index_loop m null_info 0 drive index lba total i w s ≡ stop
  unfolding find_index_loop
  find_index_out lba total i = refl

  -- With the number asked for as its own count the round repeats itself, however often.
  find_index_stuck :
      (left lba total : ℕ) (b : List ℕ)
      → lba < (info_of m null_info s).path_table_size
      → iso_read_drive m drive (u32 ((info_of m null_info s).path_table_lba + lba)) 1 w s
        ≡ done (some b, s)
      → 0 < total
      → find_index_loop m null_info left drive index lba total index w s ≡ stop
  unfolding iso_count_index
  find_index_stuck zero lba total b more read before = find_index_out lba total index
  find_index_stuck (suc left) lba total b more read before =
      find_index_again left lba total index index 0 b more read
        (count_index_hit 2047 index 0 b (omega arith)) (omega arith) (omega arith)
      ∙ find_index_stuck left lba total b more read before

  granted_block :
      (block : List ℕ)
      → m.block_for 2048 ≡ some block
      → iso_allocate_bfr m 2048 s ≡ done (some block, s)
  unfolding iso_allocate_bfr
  granted_block block granted = rw (iso_allocate_bfr, granted)

  -- A buffer for a sector, filled by a read that succeeds.
  read_sector :
      (lba : ℕ) (block bytes : List ℕ)
      → m.block_for 2048 ≡ some block
      → length block ≡ 2048
      → m.read_disk drive lba 1 w ≡ done (0, bytes)
      → length bytes ≡ 2048
      → iso_read_drive m drive lba 1 w s ≡ done (some bytes, s)
  unfolding iso_read_drive
  read_sector lba block bytes granted room read full =
      let over : put_bytes (block ++ []) 0 bytes ≡ done (bytes ++ []) =
        put_over bytes block [] [] (room ∙ sym full) in
      let filled : put_bytes block 0 bytes ≡ done bytes =
        rw (append_nil block, append_nil bytes) at over in
      rw (granted_block block granted, read, filled)

  -- A number behind the first sector of the table is never found: when that sector has `n` entries, not
  -- none, and the next one has an entry of that number of its own, no number of rounds gives
  -- iso_find_index an answer.
  pub iso_find_index_hangs :
      (rounds : ℕ) (block b0 b1 : List ℕ) (n at0 at1 : ℕ)
      → index ≢ 0
      → 1 < (info_of m null_info s).path_table_size
      → m.block_for 2048 ≡ some block
      → length block ≡ 2048
      → m.read_disk drive (u32 ((info_of m null_info s).path_table_lba + 0)) 1 w ≡ done (0, b0)
      → m.read_disk drive (u32 ((info_of m null_info s).path_table_lba + 1)) 1 w ≡ done (0, b1)
      → (length b0 ≡ 2048) × (length b1 ≡ 2048)
      → iso_count_index 0 index b0 ≡ done (n, at0)
      → 2048 ≤ at0
      → (0 < n) × (n < 2 ^ 16)
      → iso_count_index 0 index b1 ≡ done (index, at1)
      → at1 < 2048
      → iso_find_index_within m null_info rounds drive index w s ≡ stop
  unfolding iso_find_index_within
  iso_find_index_hangs rounds block b0 b1 n at0 at1 nz two granted room read0 read1 (full0, full1)
        count0 full (some_entries, small) count1 inside =
      let go : (index == 0) ≡ false = ground arith in
      let table = (info_of m null_info s).path_table_lba in
      let sector0 = read_sector (u32 (table + 0)) block b0 granted room read0 full0 in
      let sector1 = read_sector (u32 (table + 1)) block b1 granted room read1 full1 in
      rw go (from_start rounds sector0 sector1)
    where
      from_start :
          (k : ℕ)
          → iso_read_drive m drive (u32 ((info_of m null_info s).path_table_lba + 0)) 1 w s
            ≡ done (some b0, s)
          → iso_read_drive m drive (u32 ((info_of m null_info s).path_table_lba + 1)) 1 w s
            ≡ done (some b1, s)
          → find_index_loop m null_info k drive index 0 0 0 w s ≡ stop
      from_start zero sector0 sector1 = find_index_out 0 0 0
      from_start (suc zero) sector0 sector1 =
          find_index_next 0 0 0 0 n at0 b0 (omega arith) sector0 count0 full
          ∙ find_index_out 1 (u16 (0 + n)) 0
      from_start (suc (suc k)) sector0 sector1 =
          find_index_next (suc k) 0 0 0 n at0 b0 (omega arith) sector0 count0 full
          ∙ find_index_again k 1 (u16 (0 + n)) 0 index at1 b1 two sector1 count1 inside
              (omega arith)
          ∙ find_index_stuck k 1 (u16 (0 + n)) b1 two sector1 (omega arith)
