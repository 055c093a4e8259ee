-- ===== src/Dsk/Mbr/Enumerate.antt =====
-- dsk/mbr.c: what MBR_getStartLBA answers after MBR_enumerate.
use vireo_kernel.Prelude.{
  ℕ, zero, suc, ◌+◌, ◌*◌, ◌≤◌, ◌<◌, ◌≡◌, refl, arith, Bool-cases, inl, inr, ltb, Run, done, load,
  store, List, [], ◌∷◌, ◌++◌, length, get_or, snoc_append, load_middle, set?_middle, length-snoc,
}
use vireo_kernel.Dsk.Diskio.Names.{numbers_of, length-numbers_of}
use vireo_kernel.Dsk.Mbr.{
  MbrEntryInfo, Mbr, read_entries, get_drives_from, mbr_get_ide_drives, enumerate_from,
  mbr_enumerate, mbr_get_start_lba,
}
use vireo_kernel.Dsk.Mbr.Entries.{word, entries_in, read_entries_lem, assign, get_drives_from_lem}

-- A disk with room for four entries.
abbrev pub HasRoom : Mbr → Type 0
HasRoom d = length d.mbr_entry_t ≡ 4

abbrev pub AllHaveRoom : List Mbr → Type 0
AllHaveRoom [] = Unit
AllHaveRoom (d ∷ ds) = HasRoom d × AllHaveRoom ds

AllHaveRoom-assign : (ds : List Mbr) (ns : List ℕ) → AllHaveRoom ds → AllHaveRoom (assign ds ns)
AllHaveRoom-assign ds [] h = h
AllHaveRoom-assign [] (n ∷ ns) h = h
AllHaveRoom-assign (d ∷ ds) (n ∷ ns) h = (h.0, AllHaveRoom-assign ds ns h.1)

length-assign : (ds : List Mbr) (ns : List ℕ) → length (assign ds ns) ≡ length ds
length-assign ds [] = refl
length-assign [] (n ∷ ns) = refl
length-assign (d ∷ ds) (n ∷ ns) = rw (length-assign ds ns)

four_entries :
    (bytes : List ℕ) (n : ℕ) (es : List MbrEntryInfo)
    → length bytes ≡ 512
    → length es ≡ 4
    → read_entries bytes (record { disk = n; mbr_entry_t = es })
      ≡ done (record { disk = n; mbr_entry_t = entries_in bytes })
four_entries bytes n (a ∷ b ∷ c ∷ e ∷ []) h four = read_entries_lem bytes n a b c e h
four_entries bytes n [] h four = absurd (omega arith)
four_entries bytes n (a ∷ []) h four = absurd (omega arith)
four_entries bytes n (a ∷ b ∷ []) h four = absurd (omega arith)
four_entries bytes n (a ∷ b ∷ c ∷ []) h four = absurd (omega arith)
four_entries bytes n (a ∷ b ∷ c ∷ e ∷ x ∷ xs) h four = absurd (omega arith)

read_entries_room :
    (bytes : List ℕ) (d : Mbr)
    → length bytes ≡ 512
    → HasRoom d
    → read_entries bytes d ≡ done (record { disk = d.disk; mbr_entry_t = entries_in bytes })
read_entries_room bytes d h room = four_entries bytes d.disk d.mbr_entry_t h room

-- All reads of the first sector succeed: `sector d` is that of drive `d`.
module _ (read : ℕ → ℕ → ℕ → Run (ℕ × List ℕ)) (sector : ℕ → List ℕ)
    (reads : (d : ℕ) → read d 0 1 ≡ done (0, sector d))
    (full : (d : ℕ) → length (sector d) ≡ 512) where
  abbrev fill : ℕ → List Mbr → List Mbr
  fill zero ds = ds
  fill (suc n) [] = []
  fill (suc n) (d ∷ ds) =
      record { disk = d.disk; mbr_entry_t = entries_in (sector d.disk) } ∷ fill n ds

  enumerate_from-step :
      (left i : ℕ) (disks disks' : List Mbr) (d : Mbr)
      → load disks i ≡ done d
      → HasRoom d
      → store disks i (record { disk = d.disk; mbr_entry_t = entries_in (sector d.disk) })
        ≡ done disks'
      → enumerate_from read (suc left) i disks ≡ enumerate_from read left (i + 1) disks'
  unfolding enumerate_from
  enumerate_from-step left i disks disks' d a room c =
      rw (a, reads d.disk, read_entries_room (sector d.disk) d (full d.disk) room, c)

  enumerate_from_lem :
      (n : ℕ) (front rest : List Mbr)
      → n ≤ length rest
      → AllHaveRoom rest
      → enumerate_from read n (length front) (front ++ rest) ≡ done (front ++ fill n rest)
  unfolding enumerate_from
  enumerate_from_lem zero front rest h room = refl
  enumerate_from_lem (suc n) front [] h room = absurd (omega arith)
  enumerate_from_lem (suc n) front (d ∷ rest) h room =
      let d' : Mbr = record { disk = d.disk; mbr_entry_t = entries_in (sector d.disk) } in
      let put : store (front ++ (d ∷ rest)) (length front) d' ≡ done (front ++ (d' ∷ rest)) =
        rw (set?_middle front d' d rest) in
      let ih : enumerate_from read n (length front + 1) (front ++ (d' ∷ rest))
          ≡ done (front ++ (d' ∷ fill n rest)) =
        rw (length-snoc front d', snoc_append front d' rest, snoc_append front d' (fill n rest)) at
          (enumerate_from_lem n (front ++ (d' ∷ [])) rest (omega arith) room.1) in
      rw
        (enumerate_from-step n (length front) (front ++ (d ∷ rest)) (front ++ (d' ∷ rest)) d
          (load_middle front d rest) room.0 put)
        ih

  load-fill-assign :
      (ds : List Mbr) (ns : List ℕ) (k : ℕ)
      → k < length ns
      → length ns ≤ length ds
      → load (fill (length ns) (assign ds ns)) k
        ≡ done (record { disk = get_or ns k 0; mbr_entry_t = entries_in (sector (get_or ns k 0)) })
  load-fill-assign ds [] k h h' = absurd (omega arith)
  load-fill-assign [] (n ∷ ns) k h h' = absurd (omega arith)
  load-fill-assign (d ∷ ds) (n ∷ ns) zero h h' = refl
  load-fill-assign (d ∷ ds) (n ∷ ns) (suc k) h h' =
      load-fill-assign ds ns k (omega arith) (omega arith)

  start_lba_lem :
      (disks : List Mbr) (k n p : ℕ)
      → p < 4
      → load disks k ≡ done (record { disk = n; mbr_entry_t = entries_in (sector n) })
      → mbr_get_start_lba disks k p ≡ done (word (sector n) (0x1be + p * 16 + 8))
  unfolding mbr_get_start_lba
  start_lba_lem disks k n zero h a = rw a
  start_lba_lem disks k n (suc zero) h a = rw a
  start_lba_lem disks k n (suc (suc zero)) h a = rw a
  start_lba_lem disks k n (suc (suc (suc zero))) h a = rw a
  start_lba_lem disks k n (suc (suc (suc (suc p)))) h a = absurd (omega arith)

  -- With four drives, room for four disks of four entries, and reads that succeed, MBR_enumerate
  -- ends, it counts the hard disks, and MBR_getStartLBA answers for partition p of the k-th hard disk
  -- with the little-endian word at offset 8 of entry p of the partition table of that drive.
  pub mbr_enumerate_lem :
      (drives : List ℕ) (disks : List Mbr)
      → length drives ≡ 4
      → length disks ≡ 4
      → AllHaveRoom disks
      → (disks' : List Mbr) × (mbr_enumerate read drives disks
          ≡ done (disks', length (numbers_of 0 drives 0)))
        × ((k p : ℕ)
            → k < length (numbers_of 0 drives 0)
            → p < 4
            → mbr_get_start_lba disks' k p
              ≡ done (word (sector (get_or (numbers_of 0 drives 0) k 0)) (0x1be + p * 16 + 8)))
  unfolding mbr_enumerate mbr_get_ide_drives
  mbr_enumerate_lem drives disks h4 d4 room =
      let ns = numbers_of 0 drives 0 in
      let few : length ns ≤ 4 = omega (arith, length-numbers_of 0 drives 0) in
      let z : 0 + length ns ≡ length ns = omega arith in
      let got : get_drives_from drives 4 0 disks 0 ≡ done (assign disks ns, length ns) =
        rw (h4, z) at (get_drives_from_lem drives [] [] disks (omega arith)) in
      let filled : enumerate_from read (length ns) 0 (assign disks ns)
          ≡ done (fill (length ns) (assign disks ns)) =
        enumerate_from_lem (length ns) [] (assign disks ns)
          (rw (length-assign disks ns) (omega arith)) (AllHaveRoom-assign disks ns room) in
      (
        fill (length ns) (assign disks ns),
        elim (Bool-cases (ltb (length ns) 1)) [
          | inl nothing ↦
              let none : length ns ≡ 0 = ground arith in
              let same : fill (length ns) (assign disks ns) ≡ assign disks ns = rw none in
              rw (got, nothing, same)
          | inr some ↦ rw (got, some, filled)
        ],
        λ k p hk hp.
            start_lba_lem (fill (length ns) (assign disks ns)) k (get_or ns k 0) p hp
              (load-fill-assign disks ns k hk (omega arith)),
      )
