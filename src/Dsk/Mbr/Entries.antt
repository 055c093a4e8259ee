-- ===== src/Dsk/Mbr/Entries.antt =====
-- dsk/mbr.c: what the tables hold after MBR_enumerate.
use vireo_kernel.Prelude.{
  ℕ, suc, ◌+◌, ◌*◌, ◌^◌, ◌≤◌, ◌<◌, ◌≡◌, refl, arith, true, false, Bool-cases, inl, inr, ◌==◌, u8,
  bit_and, done, ◌>>=◌, load, load-eq-done, store, List, [], ◌∷◌, ◌++◌, length, get_or, snoc_append,
  load_middle, set?_middle, length-snoc,
}
use vireo_kernel.Prelude.Bits.{bit_and-mask}
use vireo_kernel.Dsk.Diskio.Names.{numbers_of}
use vireo_kernel.Dsk.Mbr.{MbrEntryInfo, Mbr, word_at, read_entry, read_entries, get_drives_from}

-- The little-endian word at an offset.
abbrev pub word : List ℕ → ℕ → ℕ
word bytes i =
    get_or bytes i 0
    + get_or bytes (i + 1) 0 * 2 ^ 8
    + get_or bytes (i + 2) 0 * 2 ^ 16
    + get_or bytes (i + 3) 0 * 2 ^ 24

pub word_at_lem :
    (bytes : List ℕ) (i : ℕ) → i + 3 < length bytes → word_at bytes i ≡ done (word bytes i)
unfolding word_at
word_at_lem bytes i h = rw (
  load-eq-done bytes i 0 (omega arith),
  load-eq-done bytes (i + 1) 0 (omega arith),
  load-eq-done bytes (i + 2) 0 (omega arith),
  load-eq-done bytes (i + 3) 0 (omega arith),
)

-- The partition entry `j` of a sector: the flag and the type are the bytes 0 and 4.
abbrev pub entry_in : List ℕ → ℕ → MbrEntryInfo
entry_in bytes j = record {
  active = u8 (word bytes (0x1be + j * 16));
  type = u8 (word bytes (0x1be + j * 16 + 4));
  start_lba = word bytes (0x1be + j * 16 + 8);
  n_sectors = word bytes (0x1be + j * 16 + 12);
}

abbrev pub entries_in : List ℕ → List MbrEntryInfo
entries_in bytes = entry_in bytes 0 ∷ entry_in bytes 1 ∷ entry_in bytes 2 ∷ entry_in bytes 3 ∷ []

low_byte : (x : ℕ) → u8 (bit_and x 0xff) ≡ u8 x
low_byte x = rw (bit_and-mask 8 x) (omega arith)

read_entry_lem :
    (bytes : List ℕ) (j : ℕ) (m : Mbr)
    → length bytes ≡ 512
    → j < 4
    → read_entry bytes j m ≡ (
        store m.mbr_entry_t j (entry_in bytes j) >>= λ entries.
        done (record m { mbr_entry_t = entries }))
unfolding read_entry
read_entry_lem bytes j m h hj = rw (
  word_at_lem bytes (0x1be + j * 16) (omega arith),
  word_at_lem bytes (0x1be + j * 16 + 4) (omega arith),
  word_at_lem bytes (0x1be + j * 16 + 8) (omega arith),
  word_at_lem bytes (0x1be + j * 16 + 12) (omega arith),
  low_byte (word bytes (0x1be + j * 16)),
  low_byte (word bytes (0x1be + j * 16 + 4)),
)

pub read_entries_lem :
    (bytes : List ℕ) (d : ℕ) (a b c e : MbrEntryInfo)
    → length bytes ≡ 512
    → read_entries bytes (record { disk = d; mbr_entry_t = a ∷ b ∷ c ∷ e ∷ [] })
      ≡ done (record { disk = d; mbr_entry_t = entries_in bytes })
unfolding read_entries
read_entries_lem bytes d a b c e h = rw (
  read_entry_lem bytes 0 (record { disk = d; mbr_entry_t = a ∷ b ∷ c ∷ e ∷ [] }) h (omega arith),
  read_entry_lem bytes 1 (record { disk = d; mbr_entry_t = entry_in bytes 0 ∷ b ∷ c ∷ e ∷ [] }) h
      (omega arith),
  read_entry_lem bytes 2
      (record { disk = d; mbr_entry_t = entry_in bytes 0 ∷ entry_in bytes 1 ∷ c ∷ e ∷ [] }) h
      (omega arith),
  read_entry_lem bytes 3
      (record {
        disk = d;
        mbr_entry_t = entry_in bytes 0 ∷ entry_in bytes 1 ∷ entry_in bytes 2 ∷ e ∷ [];
      })
      h (omega arith),
)

-- The disks in the order of their drives.
abbrev pub assign : List Mbr → List ℕ → List Mbr
assign ds [] = ds
assign [] (n ∷ ns) = []
assign (d ∷ ds) (n ∷ ns) = record d { disk = n } ∷ assign ds ns

get_drives_from-nil :
    (drives : List ℕ) (i n : ℕ) (disks : List Mbr)
    → get_drives_from drives 0 i disks n ≡ done (disks, n)
unfolding get_drives_from
get_drives_from-nil drives i n disks = refl

get_drives_from-pata :
    (drives : List ℕ) (left i n t : ℕ) (disks : List Mbr) (d : Mbr) (disks' : List Mbr)
    → load drives i ≡ done t
    → (t == 0) ≡ true
    → load disks n ≡ done d
    → store disks n (record d { disk = i }) ≡ done disks'
    → get_drives_from drives (suc left) i disks n
      ≡ get_drives_from drives left (i + 1) disks' (n + 1)
unfolding get_drives_from
get_drives_from-pata drives left i n t disks d disks' a b c e = rw (a, b, c, e)

get_drives_from-other :
    (drives : List ℕ) (left i n t : ℕ) (disks : List Mbr)
    → load drives i ≡ done t
    → (t == 0) ≡ false
    → get_drives_from drives (suc left) i disks n ≡ get_drives_from drives left (i + 1) disks n
unfolding get_drives_from
get_drives_from-other drives left i n t disks a b = rw (a, b)

pub get_drives_from_lem :
    (todo before : List ℕ) (front rest : List Mbr)
    → length todo ≤ length rest
    → get_drives_from (before ++ todo) (length todo) (length before) (front ++ rest) (length front)
      ≡ done (
        front ++ assign rest (numbers_of 0 todo (length before)),
        length front + length (numbers_of 0 todo (length before)),
      )
get_drives_from_lem [] before front rest h =
    let e : length front + 0 ≡ length front = omega arith in
    rw e (get_drives_from-nil (before ++ []) (length before) (length front) (front ++ rest))
get_drives_from_lem (t ∷ todo) before front [] h = absurd (omega arith)
get_drives_from_lem (t ∷ todo) before front (d ∷ rest) h = elim (Bool-cases (t == 0)) [
  | inl pata ↦
      let d' : Mbr = record d { disk = length before } in
      let ns = numbers_of 0 todo (length before + 1) in
      let put : store (front ++ (d ∷ rest)) (length front) d' ≡ done (front ++ (d' ∷ rest)) =
        rw (set?_middle front d' d rest) in
      let ih : get_drives_from (before ++ (t ∷ todo)) (length todo) (length before + 1)
            (front ++ (d' ∷ rest)) (length front + 1)
          ≡ done (front ++ (d' ∷ assign rest ns), length front + 1 + length ns) =
        rw
          (
            snoc_append before t todo,
            length-snoc before t,
            length-snoc front d',
            snoc_append front d' rest,
            snoc_append front d' (assign rest ns),
          )
          at
          (get_drives_from_lem todo (before ++ (t ∷ [])) (front ++ (d' ∷ [])) rest (omega arith)) in
      let sum : length front + suc (length ns) ≡ length front + 1 + length ns = omega arith in
      rw
        (
          get_drives_from-pata (before ++ (t ∷ todo)) (length todo) (length before) (length front) t
              (front ++ (d ∷ rest)) d (front ++ (d' ∷ rest)) (load_middle before t todo) pata
              (load_middle front d rest) put,
          pata,
          sum,
        )
        ih
  | inr other ↦
      let ns = numbers_of 0 todo (length before + 1) in
      let ih : get_drives_from (before ++ (t ∷ todo)) (length todo) (length before + 1)
            (front ++ (d ∷ rest)) (length front)
          ≡ done (front ++ assign (d ∷ rest) ns, length front + length ns) =
        rw (snoc_append before t todo, length-snoc before t) at
          (get_drives_from_lem todo (before ++ (t ∷ [])) front (d ∷ rest) (omega arith)) in
      rw
        (
          get_drives_from-other (before ++ (t ∷ todo)) (length todo) (length before) (length front)
              t (front ++ (d ∷ rest)) (load_middle before t todo) other,
          other,
        )
        ih
]
