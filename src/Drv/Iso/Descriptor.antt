-- ===== src/Drv/Iso/Descriptor.antt =====
-- drv/FS/iso9660.c: the search for a volume descriptor.
use vireo_kernel.Prelude.{
  ℕ, zero, suc, ◌+◌, ◌-◌, ◌≤◌, ◌<◌, ◌≡◌, ◌⊎◌, refl, arith, sym, ◌∙◌, ◌==◌, ◌||◌, true, false, done,
  stop, load, List, [], ◌∷◌, ◌++◌, length, get_or, split, length-append,
}
use vireo_kernel.Drv.Machine.{Machine, put_bytes}
use vireo_kernel.Drv.Machine.Buffers.{put_over}
use vireo_kernel.Drv.Iso.{search_descriptor_from, iso_search_descriptor, vd_type_terminator}

module _ {W : Type 0} (m : Machine W) (drive : ℕ) (w : W) (sector : ℕ → List ℕ) (type : ℕ)
    (reads : (lba : ℕ) → m.read_disk drive lba 1 w ≡ done (0, sector lba))
    (full : (lba : ℕ) → length (sector lba) ≡ 2048) where
  -- The sector has a descriptor of the type, or the last one.
  abbrev pub IsWanted : ℕ → Type 0
  IsWanted lba = (get_or (sector lba) 0 0 ≡ type) ⊎ (get_or (sector lba) 0 0 ≡ vd_type_terminator)

  load_front : (xs ys : List ℕ) → 0 < length xs → load (xs ++ ys) 0 ≡ done (get_or xs 0 0)
  load_front [] ys h = absurd (omega arith)
  load_front (x ∷ xs) ys h = refl

  -- What the buffer holds after a read.
  filled :
      (buffer : List ℕ) (lba : ℕ)
      → 2048 ≤ length buffer
      → (rest : List ℕ) × (put_bytes buffer 0 (sector lba) ≡ done (sector lba ++ rest))
        × (length (sector lba ++ rest) ≡ length buffer)
  filled buffer lba room =
      let (old, rest, e, lo, lr) = split 2048 (length buffer - 2048) buffer (omega arith) in
      (
        rest,
        rw e (put_over (sector lba) old [] rest (lo ∙ sym (full lba))),
        omega (arith, length-append (sector lba) rest, full lba),
      )

  search_step :
      (left lba : ℕ) (buffer : List ℕ)
      → 2048 ≤ length buffer
      → (rest : List ℕ) × (2048 ≤ length (sector lba ++ rest))
        × (IsWanted lba
            → search_descriptor_from m (suc left) lba drive buffer type w
              ≡ done (sector lba ++ rest))
        × (¬ IsWanted lba
            → search_descriptor_from m (suc left) lba drive buffer type w
              ≡ search_descriptor_from m left (lba + 1) drive (sector lba ++ rest) type w)
  unfolding search_descriptor_from
  search_step left lba buffer room =
      let (rest, put_in, long) = filled buffer lba room in
      let front = load_front (sector lba) rest (omega (arith, full lba)) in
      let t = get_or (sector lba) 0 0 in
      (
        rest,
        omega (arith, long),
        λ is.
            let hit : (t == type || t == vd_type_terminator) ≡ true = ground arith in
            rw (reads lba, put_in, front, hit),
        λ not_is.
            let miss : (t == type || t == vd_type_terminator) ≡ false = ground arith in
            rw (reads lba, put_in, front, miss),
      )

  search_descriptor_from_lem :
      (k left lba : ℕ) (buffer : List ℕ)
      → 2048 ≤ length buffer
      → ((j : ℕ) → j < k → ¬ IsWanted (lba + j))
      → IsWanted (lba + k)
      → k < left
      → (rest : List ℕ) × (search_descriptor_from m left lba drive buffer type w
          ≡ done (sector (lba + k) ++ rest))
  search_descriptor_from_lem k zero lba buffer room before is fuel = absurd (omega arith)
  search_descriptor_from_lem zero (suc left) lba buffer room before is fuel =
      let z : lba + 0 ≡ lba = omega arith in
      let (rest, long, hit, miss) = search_step left lba buffer room in
      (rest, rw z (hit (rw z at is)))
  search_descriptor_from_lem (suc k) (suc left) lba buffer room before is fuel =
      let z : lba + 0 ≡ lba = omega arith in
      let next : (j : ℕ) → lba + suc j ≡ lba + 1 + j = λ j. omega arith in
      let (rest, long, hit, miss) = search_step left lba buffer room in
      let (rest', found) =
        search_descriptor_from_lem k left (lba + 1) (sector lba ++ rest) long
          (λ j h. rw (next j) at (before (suc j) (omega arith))) (rw (next k) at is)
          (omega arith) in
      (rest', rw (next k) (miss (rw z at (before 0 (omega arith))) ∙ found))

  search_descriptor_from_end :
      (lba : ℕ) (buffer : List ℕ) → search_descriptor_from m 0 lba drive buffer type w ≡ stop
  unfolding search_descriptor_from
  search_descriptor_from_end lba buffer = refl

  search_descriptor_from_none :
      (left lba : ℕ) (buffer : List ℕ)
      → 2048 ≤ length buffer
      → ((j : ℕ) → j < left → ¬ IsWanted (lba + j))
      → search_descriptor_from m left lba drive buffer type w ≡ stop
  search_descriptor_from_none zero lba buffer room none = search_descriptor_from_end lba buffer
  search_descriptor_from_none (suc left) lba buffer room none =
      let z : lba + 0 ≡ lba = omega arith in
      let (rest, long, hit, miss) = search_step left lba buffer room in
      miss (rw z at (none 0 (omega arith)))
      ∙ search_descriptor_from_none left (lba + 1) (sector lba ++ rest) long (λ j h.
        let e : lba + suc j ≡ lba + 1 + j = omega arith in rw e at (none (suc j) (omega arith)))

  -- When all reads succeed, iso_search_descriptor gives the first of the sectors 16 to 254 that starts
  -- with the type or with the mark of the last descriptor; without one it stops in dbg_assert.
  pub iso_search_descriptor_lem :
      (buffer : List ℕ)
      → 2048 ≤ length buffer
      → ((k : ℕ)
          → k < 239
          → ((j : ℕ) → j < k → ¬ IsWanted (16 + j))
          → IsWanted (16 + k)
          → (rest : List ℕ) × (iso_search_descriptor m drive buffer type w
              ≡ done (sector (16 + k) ++ rest)))
        × (((j : ℕ) → j < 239 → ¬ IsWanted (16 + j))
            → iso_search_descriptor m drive buffer type w ≡ stop)
  unfolding iso_search_descriptor
  iso_search_descriptor_lem buffer room = (
    λ k small before is. search_descriptor_from_lem k 239 16 buffer room before is small,
    λ none. search_descriptor_from_none 239 16 buffer room none,
  )
