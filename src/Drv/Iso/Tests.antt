-- ===== src/Drv/Iso/Tests.antt =====
-- The ISO 9660 driver at concrete sectors and paths.
use vireo_kernel.Prelude.{
  ℕ, suc, ◌+◌, ◌<◌, ◌≡◌, refl, arith, ap, List, [], ◌∷◌, ◌++◌, length, length-replicate, replicate,
  none, some, done, stop, fault, if◌then◌else◌, ◌==◌,
}
use vireo_kernel.Drv.Machine.{Machine}
use vireo_kernel.Drv.Iso.{CdInfo, IsoState, iso_search_descriptor}
use vireo_kernel.Drv.Iso.Descriptor.{IsWanted, iso_search_descriptor_lem}
use vireo_kernel.Drv.Iso.Table.{count_index_loop, iso_count_index, iso_find_index_within}
use vireo_kernel.Drv.Iso.Table.Index.{iso_find_index_hangs}
use vireo_kernel.Drv.Iso.Paths.{reverse_path}
use vireo_kernel.Drv.Iso.Paths.Reverse.{reverse_path_underflow}

-- `n` bytes of one value
bytes_of : ℕ → ℕ → List ℕ
bytes_of n b = replicate n b

length-bytes_of : (n b : ℕ) → length (bytes_of n b) ≡ n
unfolding bytes_of
length-bytes_of n b = length-replicate {A = ℕ} n b

-- A disk of primary descriptors.
abbrev primary : List ℕ
primary = 1 ∷ bytes_of 2047 0

abbrev sector_of : ℕ → List ℕ
sector_of lba =
    if lba == 0 then bytes_of 2048 255 else if lba == 1 then bytes_of 2048 0 else primary

abbrev cd : Machine (Unit {0})
cd = record {
  read_disk = λ drive lba sectors w. done (0, sector_of lba);
  write_disk = λ drive lba sectors bytes w. done w;
  fresh = λ n. bytes_of n 0;
  block_for = λ n. some (bytes_of n 0);
  fresh_words = λ n. bytes_of n 0;
  stack = λ n. bytes_of n 0;
  pages = λ n. none;
  low = [];
}

abbrev cd_of_primaries : Machine (Unit {0})
cd_of_primaries = record cd { read_disk = λ drive lba sectors w. done (0, primary) }

length-primary : length primary ≡ 2048
length-primary = ap suc (length-bytes_of 2047 0)

iso_search_descriptor_lem_example :
    ((k : ℕ)
      → k < 239
      → ((j : ℕ)
          → j < k
          → ¬ IsWanted cd_of_primaries 2 tt
              (λ lba. primary)
              1
              (λ lba. refl)
              (λ lba. length-primary)
              (16 + j))
      → IsWanted cd_of_primaries 2 tt
          (λ lba. primary)
          1
          (λ lba. refl)
          (λ lba. length-primary)
          (16 + k)
      → (rest : List ℕ) × (iso_search_descriptor cd_of_primaries 2 (bytes_of 2048 0) 1 tt
          ≡ done (primary ++ rest)))
    × (((j : ℕ)
          → j < 239
          → ¬ IsWanted cd_of_primaries 2 tt
              (λ lba. primary)
              1
              (λ lba. refl)
              (λ lba. length-primary)
              (16 + j))
        → iso_search_descriptor cd_of_primaries 2 (bytes_of 2048 0) 1 tt ≡ stop)
iso_search_descriptor_lem_example =
    iso_search_descriptor_lem cd_of_primaries 2 tt (λ lba. primary) 1 (λ lba. refl)
      (λ lba. length-primary) (bytes_of 2048 0) (omega (arith, length-bytes_of 2048 0))

abbrev two_sector_table : CdInfo
two_sector_table = record {
  path_table_lba = 0;
  path_table_size = 2;
  rootdir_lba = 20;
  volident = [];
  vol_size = 0;
}

abbrev known_disk : IsoState
known_disk = record {
  atapi_devices = 4;
  n_atapi_devs = 0;
  cd_info_ptr = some two_sector_table;
  gerror = 0;
  loc = 0;
  lba = 0;
  holder = none;
}

count_long : iso_count_index 0 9 (bytes_of 2048 255) ≡ done (8, 2112)
unfolding iso_count_index count_index_loop bytes_of
count_long = refl

count_short : iso_count_index 0 9 (bytes_of 2048 0) ≡ done (9, 72)
unfolding iso_count_index count_index_loop bytes_of
count_short = refl

-- Eight entries with names of 255 characters are in the first sector.
iso_find_index_hangs_example :
    iso_find_index_within cd two_sector_table 1000 2 9 tt known_disk ≡ stop
iso_find_index_hangs_example =
    iso_find_index_hangs cd two_sector_table 2 9 known_disk tt 1000 (bytes_of 2048 0)
      (bytes_of 2048 255) (bytes_of 2048 0) 8 2112 72 (ground arith) (omega arith) refl
      (length-bytes_of 2048 0) refl refl (length-bytes_of 2048 255, length-bytes_of 2048 0)
      count_long (omega arith) (omega arith, omega arith) count_short (omega arith)

-- CD0/A
reverse_path_underflow_example :
    reverse_path (λ n. some (bytes_of n 0)) (b'C' ∷ b'D' ∷ b'0' ∷ b'/' ∷ b'A' ∷ 0 ∷ []) none ≡ fault
reverse_path_underflow_example =
    reverse_path_underflow (λ n. some (bytes_of n 0)) (b'C' ∷ b'D' ∷ b'0' ∷ []) ((b'A' ∷ []) ∷ [])
      [] (bytes_of 6 0) none
      (
        (
          (
            (ground arith, ground arith, omega arith),
            (
              (ground arith, ground arith, omega arith),
              ((ground arith, ground arith, omega arith), tt),
            ),
          ),
          omega arith,
        ),
        ((((ground arith, ground arith, omega arith), tt), omega arith), tt),
      )
      (omega arith) refl (omega (arith, length-bytes_of 6 0)) (omega (arith, length-bytes_of 6 0))
