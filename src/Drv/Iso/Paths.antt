-- ===== src/Drv/Iso/Paths.antt =====
-- drv/FS/iso9660.c: from a path to a file, and the packets.
pub mod Reverse
use vireo_kernel.Prelude.{
  ℕ, zero, suc, ◌+◌, ◌-◌, ◌*◌, ◌/◌, ◌%◌, ◌^◌, Bool, true, false, not, ◌&&◌, if◌then◌else◌, ltb,
  ◌==◌, u8, u32, ◌>>>◌, Run, done, stop, dbg_assert, load, store, of_option, List, [], ◌∷◌, drop,
  length, Option, none, some,
}
use vireo_kernel.Prelude
use vireo_kernel.Util.{
  max_u32, exit_code_global_unsupported, strlen, find_in_str, remove_from_str, memcpy,
  create_backup_str,
}
use vireo_kernel.Util.Tokens.{rounds_for, strtok}
use vireo_kernel.Dsk.Diskio.{convert_drive_id}
use vireo_kernel.Dsk.Mbr.{word_at}
use vireo_kernel.Drv.Machine.{Machine, or_low, fetch, put_bytes}
use vireo_kernel.Drv.Iso.{
  IsoState, CdInfo, Iso, pure, ◌>>=◌, ◌>>◌, run, get, modify, iso_sector_size, iso_allocate_bfr,
  iso_read_drive, iso_init,
}
use vireo_kernel.Drv.Iso.Table.{slash, info_of, iso_search_in_path_table, check_parents}
use vireo_kernel.Drv.Iso.Dirs.{iso_search_dir}

-- The loop of `reverse_path`: `index` is the place of the last character of the next word.
pub reverse_loop :
    ℕ → List ℕ → ℕ → Option (List ℕ) → Option (List ℕ) → Run (List ℕ × Option (List ℕ))
reverse_loop zero new index current holder = stop
reverse_loop (suc left) new index none holder = done (new, holder)
reverse_loop (suc left) new index (some current) holder =
    let go_on = λ (b : List ℕ) (i : ℕ). Prelude.◌>>=◌ (store b i b'/') (λ c.
      Prelude.◌>>=◌ (strtok none slash holder)
        (λ t. reverse_loop left c (u32 (i + 2 ^ 32 - 1)) t.0 t.1)) in
    Prelude.◌>>=◌ (strlen (some current)) (λ n. Prelude.◌>>=◌ (fetch current 0 n) (λ word.
      Prelude.◌>>=◌ (put_bytes new (u32 (index + 2 ^ 32 - n + 1)) word) (λ b.
        let index' = u32 (index + 2 ^ 32 - n) in
        if index' == 0 then done (b, holder) else go_on b index')))

-- The path with its parts in the opposite order, and the holder of strtok.
pub reverse_path : (ℕ → Option (List ℕ)) → List ℕ → Option (List ℕ) → Run (List ℕ × Option (List ℕ))
reverse_path kmalloc path holder = Prelude.◌>>=◌ (strlen (some path)) (λ len.
    Prelude.◌>>=◌ (create_backup_str kmalloc path) (λ copy.
      Prelude.◌>>=◌ (of_option (kmalloc (len + 1))) (λ new.
        Prelude.◌>>=◌ (strtok copy slash holder) (λ t.
          Prelude.◌>>=◌ (reverse_loop (len + 1) new (u32 (len + 2 ^ 32 - 1)) t.0 t.1) (λ r.
            Prelude.◌>>=◌ (strlen (some r.0))
              (λ n. Prelude.◌>>=◌ (memcpy path r.0 n) (λ p. done (p, r.1))))))))

module _ {W : Type 0} (m : Machine W) (drivelist : List ℕ) (null_info : CdInfo) where
  pub reverse : List ℕ → Iso (List ℕ)
  reverse path = do
    s ← get
    r ← run (reverse_path m.block_for path s.holder)
    modify (λ t. record t { holder = r.1 })
    pure r.0

  abbrev pub backup : List ℕ → Iso (List ℕ)
  backup str = run (Prelude.◌>>=◌ (create_backup_str m.block_for str) of_option)

  pub iso_clean_path_reverse : List ℕ → Iso (List ℕ)
  iso_clean_path_reverse p = do
    id ← run (convert_drive_id drivelist p)
    p' ← if id >>> 8 == 0xff then pure p else run (remove_from_str p 4)
    loc ← run (find_in_str p' slash)
    let turn = reverse p' >>= λ q.
        run (find_in_str q slash) >>= λ at. run (remove_from_str q (u32 (at + 1)))
    if loc == max_u32 then pure p' else turn

  -- A name with a terminator, in a buffer of its own.
  pub name_buffer : List ℕ → ℕ → Iso (List ℕ)
  name_buffer text len = do
    ptr ← iso_allocate_bfr m (u32 (len + 1))
    block ← run (of_option ptr)
    name ← run (memcpy block text len)
    run (store name len 0)

  -- The loop of `iso_path_to_dir_lba`: `none` for MAX. Each round finds a later entry of the path
  -- table, of eight bytes or more.
  pub match_parents : ℕ → ℕ → List ℕ → List ℕ → List ℕ → W → Iso (Option (List ℕ))
  match_parents zero drive t file parents w = run stop
  match_parents (suc left) drive t file parents w = do
    copy ← backup parents
    good ← check_parents m null_info t drive copy w
    let again = iso_search_in_path_table m null_info drive file false w >>= λ next. elim next [
      | none ↦ pure none
      | some t' ↦ match_parents left drive t' file parents w
    ]
    if good then pure (some t) else again

  pub iso_path_to_dir_lba : ℕ → List ℕ → W → Iso ℕ
  iso_path_to_dir_lba drive path w = do
    p ← backup path
    found ← run (find_in_str path slash)
    whole ← run (strlen (some path))
    let len = if found == max_u32 then whole else found
    file ← name_buffer path len
    first ← iso_search_in_path_table m null_info drive file true w
    s ← get
    t ← elim first [
      | none ↦ pure none
      | some entry ↦
          match_parents ((info_of m null_info s).path_table_size * 256 + 1) drive entry file
            (drop (len + 1) p) w
    ]
    elim t [ none ↦ pure max_u32 | some entry ↦ run (word_at entry 2) ]

  -- The sector and the size of a file.
  pub iso_traverse : List ℕ → ℕ → W → Iso (ℕ × ℕ)
  iso_traverse path fsize w = do
    id ← run (convert_drive_id drivelist path)
    let drive = u8 (id >>> 8)
    p ← backup path
    a ← backup path
    turned ← reverse a
    flen ← run (find_in_str turned slash)
    run (dbg_assert (not (flen == max_u32)))
    filename ← name_buffer turned flen
    dirs ← iso_clean_path_reverse p
    s ← get
    has_dot ← run (find_in_str dirs (b'.' ∷ 0 ∷ []))
    dir_lba ←
        if has_dot == max_u32
        then iso_path_to_dir_lba drive dirs w
        else pure (info_of m null_info s).rootdir_lba
    iso_search_dir m drive dir_lba filename fsize w

  -- The buffer and the size of the file.
  pub iso_read : List ℕ → W → Iso (Option (List ℕ) × ℕ)
  iso_read path w = do
    file ← iso_traverse path 0 w
    id ← run (convert_drive_id drivelist path)
    let rest = if file.1 % iso_sector_size == 0 then 0 else 1
    bfr ← iso_read_drive m (u8 (id >>> 8)) file.0 (file.1 / iso_sector_size + rest) w
    pure (bfr, file.1)

-- A packet, with its pointers followed.
pub data IsoPacket : Type 0 where
  init : (drive : ℕ) → IsoPacket
  read_file : (path : List ℕ) → IsoPacket
  other : (command : ℕ) → IsoPacket

module _ {W : Type 0} (m : Machine W) (drivelist : List ℕ) (null_info blank : CdInfo) where
  pub answer_packet : IsoPacket → W → Iso (Option (Option (List ℕ) × ℕ))
  answer_packet (init drive) w = do iso_init m blank (u8 drive) w; pure none
  answer_packet (read_file path) w = do r ← iso_read m drivelist null_info path w; pure (some r)
  answer_packet (other command) w = do
    modify (λ s. record s { gerror = exit_code_global_unsupported })
    pure none

  -- The answer in drv[2] and drv[3], if there is one, and the error code for drv[4].
  pub iso_handler : IsoPacket → W → Iso (Option (Option (List ℕ) × ℕ) × ℕ)
  iso_handler packet w = do
    modify (λ s. record s { gerror = 0 })
    r ← answer_packet packet w
    s ← get
    pure (r, s.gerror)
