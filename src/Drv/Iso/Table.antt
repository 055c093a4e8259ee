-- ===== src/Drv/Iso/Table.antt =====
-- drv/FS/iso9660.c: the path table. An entry has the length of its name at byte 0, its sector at
-- byte 2, the number of its parent at byte 6 and the name from byte 8 on.
pub mod Index
use vireo_kernel.Prelude.{
  ℕ, zero, suc, ◌+◌, ◌-◌, ◌*◌, ◌/◌, ◌%◌, ◌^◌, Bool, true, false, not, ◌&&◌, if◌then◌else◌, ltb,
  ◌==◌, u16, u32, Run, done, stop, load, List, [], ◌∷◌, ◌++◌, drop, Option, none, some,
}
use vireo_kernel.Prelude
use vireo_kernel.Util.{max_u32, strlen, strcmp_until, find_in_str, replace_in_str, memcpy}
use vireo_kernel.Util.Tokens.{rounds_for, strtok}
use vireo_kernel.Drv.Machine.{Machine, or_low, half_at, fetch, put_bytes}
use vireo_kernel.Drv.Iso.{
  IsoState, CdInfo, Iso, pure, ◌>>=◌, ◌>>◌, run, get, modify, iso_sector_size, iso_allocate_bfr,
  iso_read_drive,
}

abbrev pub pathtable_size : ℕ
pathtable_size = 8

abbrev pub no_location : ℕ
no_location = 0xffff

abbrev pub slash : List ℕ
slash = b'/' ∷ 0 ∷ []

-- The length of an entry, with the padding byte behind a name of odd length.
abbrev pub entry_step : ℕ → ℕ
entry_step ident_len = pathtable_size + ident_len + (if ident_len % 2 == 1 then 1 else 0)

-- The loop of `iso_read_path_table_buffer` at byte `at`. Each round moves on by eight bytes or more, so
-- there are fewer rounds than bytes in a sector.
pub read_table_loop : ℕ → List ℕ → List ℕ → ℕ → Run ℕ
read_table_loop zero buffer filename at = stop
read_table_loop (suc left) buffer filename at =
    let look = Prelude.◌>>=◌ (load buffer at) (λ ident_len.
      Prelude.◌>>=◌ (strcmp_until (drop (at + pathtable_size) buffer) filename ident_len) (λ differ.
        let next = read_table_loop left buffer filename (u16 (at + entry_step ident_len)) in
        if differ == 0 then done at else next)) in
    let used = Prelude.◌>>=◌ (load buffer at) (λ ident_len.
      if ident_len == 0
      then Prelude.◌>>=◌ (half_at buffer (at + 6)) (λ parent. done (not (parent == 0)))
      else done true) in
    if ltb at iso_sector_size
    then Prelude.◌>>=◌ used (λ in_use. if in_use then look else done no_location)
    else done no_location

pub iso_read_path_table_buffer : List ℕ → List ℕ → ℕ → Run ℕ
iso_read_path_table_buffer buffer filename s = read_table_loop iso_sector_size buffer filename s

-- The loop of `iso_count_index` at byte `at`: the index and the byte where it ends.
unfoldable pub count_index_loop : ℕ → ℕ → ℕ → List ℕ → ℕ → Run (ℕ × ℕ)
count_index_loop zero index until buffer at = stop
count_index_loop (suc left) index until buffer at =
    let go_on = Prelude.◌>>=◌ (load buffer at) (λ ident_len.
      count_index_loop left (u16 (index + 1)) until buffer (u16 (at + entry_step ident_len))) in
    if ltb at iso_sector_size
    then (if index == until then done (index, at) else go_on)
    else done (index, at)

unfoldable pub iso_count_index : ℕ → ℕ → List ℕ → Run (ℕ × ℕ)
iso_count_index index_start until buffer =
    count_index_loop iso_sector_size index_start until buffer 0

-- `null_info` is what stands at address 0 read as a cd_info_t.
module _ {W : Type 0} (m : Machine W) (null_info : CdInfo) where
  abbrev pub info_of : IsoState → CdInfo
  info_of s = or_low null_info s.cd_info_ptr

  -- A copy of the entry at a byte of the buffer, without its padding byte.
  pub copy_entry : List ℕ → ℕ → Iso (List ℕ × ℕ)
  copy_entry b at = do
    ident_len ← run (load b at)
    let len = u16 (ident_len + pathtable_size)
    ret ← iso_allocate_bfr m len
    block ← elim ret [ none ↦ run stop | some p ↦ pure p ]
    bytes ← run (fetch b at len)
    out ← run (put_bytes block 0 bytes)
    pure (out, len)

  -- The loop of `iso_search_in_path_table`: `left` sectors of the table are left.
  pub search_table_loop : ℕ → ℕ → List ℕ → W → Iso (Option (List ℕ))
  search_table_loop zero drive filename w = pure none
  search_table_loop (suc left) drive filename w = do
    s ← get
    buffer ← iso_read_drive m drive (u32 ((info_of s).path_table_lba + s.lba)) 1 w
    let b = or_low m.low buffer
    loc ← run (iso_read_path_table_buffer b filename s.loc)
    let next =
        modify (λ t. record t { loc = 0; lba = t.lba + 1 })
        >> search_table_loop left drive filename w
    let found = copy_entry b loc >>= λ r.
        modify (λ t. record t { loc = u16 (loc + r.1) }) >> pure (some r.0)
    if loc == no_location then next else found

  pub iso_search_in_path_table : ℕ → List ℕ → Bool → W → Iso (Option (List ℕ))
  iso_search_in_path_table drive filename reset w = do
    modify (λ s. if reset then record s { loc = 0; lba = 0 } else s)
    s ← get
    search_table_loop ((info_of s).path_table_size - s.lba) drive filename w

  -- The loop of `iso_find_index` at sector `lba`, for `left` rounds at most, with `total` entries in the
  -- sectors before.
  pub find_index_loop : ℕ → ℕ → ℕ → ℕ → ℕ → ℕ → W → Iso (Option (List ℕ))
  find_index_loop zero drive index lba total i w = run stop
  find_index_loop (suc left) drive index lba total i w = do
    s ← get
    let go_on =
        λ (lba' : ℕ) (total' : ℕ) (i' : ℕ). find_index_loop left drive index lba' total' i' w
    let look = iso_read_drive m drive (u32 ((info_of s).path_table_lba + lba)) 1 w >>= λ buffer.
        run (iso_count_index i index (or_low m.low buffer)) >>= λ r.
        let next = go_on (lba + 1) (u16 (total + r.0)) 0 in
        let again = go_on lba total r.0 in
        let found = copy_entry (or_low m.low buffer) r.1 >>= λ e. pure (some e.0) in
        if not (ltb r.1 iso_sector_size)
        then next
        else if not (total + r.0 == index)
        then again
        else found
    if ltb lba (info_of s).path_table_size then look else pure none

  pub iso_find_index_within : ℕ → ℕ → ℕ → W → Iso (Option (List ℕ))
  iso_find_index_within rounds drive index w =
      let search = find_index_loop rounds drive index 0 0 0 w in
      if index == 0 then pure none else search

  -- A round ends the search, goes on to the next sector, or is repeated with `i` as the number asked
  -- for, which leads to the same round again: more rounds than one for each sector and one more
  -- give no other answer.
  pub iso_find_index : ℕ → ℕ → W → Iso (Option (List ℕ))
  iso_find_index drive index w =
      get >>= λ s. iso_find_index_within ((info_of s).path_table_size + 1) drive index w

  pub check_parent : List ℕ → List ℕ → Run Bool
  check_parent filename p = Prelude.◌>>=◌ (strlen (some filename)) (λ len.
      Prelude.◌>>=◌ (strcmp_until filename (drop pathtable_size p) len)
        (λ differ. done (not (differ == 0))))

  -- The loop of `check_parents`; `parent` is the current token, `none` for NULL.
  pub check_parents_loop : ℕ → Option (List ℕ) → ℕ → ℕ → W → Iso Bool
  check_parents_loop zero parent index drive w = run stop
  check_parents_loop (suc left) none index drive w = pure true
  check_parents_loop (suc left) (some parent) index drive w = do
    t ← iso_find_index drive (u16 (index + 2 ^ 16 - 1)) w
    let entry = or_low m.low t
    name ← run (replace_in_str parent b' ' 0)
    differ ← run (check_parent name entry)
    s ← get
    let next = run (half_at entry 6) >>= λ index'. run (strtok none slash s.holder) >>= λ r.
        modify (λ u. record u { holder = r.1 }) >> check_parents_loop left r.0 index' drive w
    if differ then pure false else next

  pub check_parents : List ℕ → ℕ → List ℕ → W → Iso Bool
  check_parents child drive path_parents_only w = do
    where_slash ← run (find_in_str path_parents_only slash)
    s ← get
    let walk = run (strtok (some path_parents_only) slash s.holder) >>= λ r.
        modify (λ u. record u { holder = r.1 }) >> run (half_at child 6) >>= λ index.
        check_parents_loop (rounds_for r.1 + 1) r.0 index drive w
    if where_slash == max_u32 then pure true else walk
