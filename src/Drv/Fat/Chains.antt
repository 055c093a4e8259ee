-- ===== src/Drv/Fat/Chains.antt =====
-- drv/FS/fat.c: what FAT32_readFat makes of a chain of clusters.
pub mod Disk
use vireo_kernel.Prelude.{
  ℕ, zero, suc, ◌+◌, ◌≤◌, ◌<◌, ◌≡◌, refl, arith, true, false, done, fault, store, List, [], ◌∷◌,
  ◌++◌, length, drop, snoc_append, set?_middle, length-snoc, store-eq-fault, append_nil,
}
use vireo_kernel.Drv.Machine.{Machine}
use vireo_kernel.Drv.Fat.{FsInfo, in_chain, fat32_read_table, read_fat_loop, fat32_read_fat}

module _ {W : Type 0} (m : Machine W) (drive : ℕ) (info : FsInfo) (w : W) where
  -- The chain of clusters that starts at a cluster, as FAT32_read_table reads it.
  pub data Chain : ℕ → List ℕ → Type 0 where
    over : (c : ℕ) → in_chain c ≡ false → Chain c []
    link :
        (c d : ℕ) (cs : List ℕ)
        → in_chain c ≡ true
        → fat32_read_table m drive info c w ≡ done d
        → Chain d cs
        → Chain c (c ∷ cs)

  pub read_fat_loop-step :
      (left : ℕ) (clusters clusters' : List ℕ) (n c d : ℕ)
      → in_chain c ≡ true
      → store clusters n c ≡ done clusters'
      → fat32_read_table m drive info c w ≡ done d
      → read_fat_loop m drive info (suc left) clusters n c w
        ≡ read_fat_loop m drive info left clusters' (n + 1) d w
  unfolding read_fat_loop
  read_fat_loop-step left clusters clusters' n c d on stored next = rw (on, stored, next)

  read_fat_loop_over :
      (left : ℕ) (clusters : List ℕ) (n c : ℕ)
      → in_chain c ≡ false
      → read_fat_loop m drive info (suc left) clusters n c w ≡ done (clusters, n)
  unfolding read_fat_loop
  read_fat_loop_over left clusters n c end = rw end

  pub read_fat_loop_full :
      (left : ℕ) (clusters : List ℕ) (c : ℕ)
      → in_chain c ≡ true
      → read_fat_loop m drive info (suc left) clusters (length clusters) c w ≡ fault
  unfolding read_fat_loop
  read_fat_loop_full left clusters c on =
      rw (on, store-eq-fault clusters (length clusters) c (omega arith))

  pub stored_next :
      (before rest : List ℕ) (c x : ℕ)
      → store (before ++ (x ∷ rest)) (length before) c ≡ done ((before ++ (c ∷ [])) ++ rest)
  stored_next before rest c x = rw (set?_middle before c x rest, snoc_append before c rest)

  read_fat_loop-Chain :
      (left : ℕ) (before rest : List ℕ) {cs : List ℕ} {c : ℕ}
      → Chain c cs
      → length cs < left
      → length cs ≤ length rest
      → read_fat_loop m drive info left (before ++ rest) (length before) c w
        ≡ done (before ++ (cs ++ drop (length cs) rest), length before + length cs)
  read_fat_loop-Chain zero before rest chain h fits = absurd (omega arith)
  read_fat_loop-Chain (suc left) before rest (over c end) h fits =
      let z : length before + 0 ≡ length before = omega arith in
      rw z (read_fat_loop_over left (before ++ rest) (length before) c end)
  read_fat_loop-Chain (suc left) before [] (link c d cs on next tail) h fits = absurd (omega arith)
  read_fat_loop-Chain (suc left) before (x ∷ rest) (link c d cs on next tail) h fits =
      let run =
        read_fat_loop-Chain left (before ++ (c ∷ [])) rest tail (omega arith) (omega arith) in
      let z : length before + suc (length cs) ≡ length before + 1 + length cs = omega arith in
      rw
        (
          read_fat_loop-step left (before ++ (x ∷ rest)) ((before ++ (c ∷ [])) ++ rest)
              (length before) c d on (stored_next before rest c x) next,
          z,
          ← length-snoc before c,
          ← snoc_append before c (cs ++ drop (length cs) rest),
        )
        run

  read_fat_loop_long :
      (left : ℕ) (before rest : List ℕ) {cs : List ℕ} {c : ℕ}
      → Chain c cs
      → length rest < left
      → length rest < length cs
      → read_fat_loop m drive info left (before ++ rest) (length before) c w ≡ fault
  read_fat_loop_long zero before rest chain h long = absurd (omega arith)
  read_fat_loop_long (suc left) before rest (over c end) h long = absurd (omega arith)
  read_fat_loop_long (suc left) before [] (link c d cs on next tail) h long =
      rw (append_nil before) (read_fat_loop_full left before c on)
  read_fat_loop_long (suc left) before (x ∷ rest) (link c d cs on next tail) h long =
      let run =
        read_fat_loop_long left (before ++ (c ∷ [])) rest tail (omega arith) (omega arith) in
      rw
        (
          read_fat_loop-step left (before ++ (x ∷ rest)) ((before ++ (c ∷ [])) ++ rest)
              (length before) c d on (stored_next before rest c x) next,
          ← length-snoc before c,
        )
        run

-- The start of a list: the whole list is this and something behind it.
abbrev pub StartsWith : List ℕ → List ℕ → Type 0
StartsWith xs ys = (more : List ℕ) × (ys ≡ xs ++ more)

module _ {W : Type 0} (m : Machine W) (drive : ℕ) (info : FsInfo) (w : W)
    (room : length (m.fresh_words 512) ≡ 128) where
  pub a_first :
      (block : List ℕ)
      → 0 < length block
      → (x : ℕ) × (rest : List ℕ) × (block ≡ x ∷ rest) × (length block ≡ suc (length rest))
  a_first [] h = absurd (omega arith)
  a_first (x ∷ rest) h = (x, rest, refl, refl)

  pub read_fat_start :
      (c x : ℕ) (rest : List ℕ)
      → m.fresh_words 512 ≡ x ∷ rest
      → fat32_read_fat m drive info c w ≡ read_fat_loop m drive info 128 ((c ∷ []) ++ rest) 1 c w
  unfolding fat32_read_fat
  read_fat_start c x rest e = rw e

  -- FAT32_readFat gives the first cluster of a chain of at most 127 clusters twice, and then the
  -- others in order; the number that it gives is the length of the chain plus one. A longer chain
  -- is written past the end of the array.
  pub fat32_read_fat_lem :
      {c : ℕ} {cs : List ℕ}
      → Chain m drive info w c cs
      → (length cs < 128
          → (clusters : List ℕ) × (fat32_read_fat m drive info c w ≡ done (clusters, 1 + length cs))
            × StartsWith (c ∷ cs) clusters)
        × (128 ≤ length cs → fat32_read_fat m drive info c w ≡ fault)
  fat32_read_fat_lem {c} {cs} chain =
      let (x, rest, block, long) = a_first (m.fresh_words 512) (omega arith) in
      (
        λ short. (
          c ∷ (cs ++ drop (length cs) rest),
          rw (read_fat_start c x rest block) (
              read_fat_loop-Chain m drive info w 128 (c ∷ []) rest chain (omega arith)
                (omega arith)),
          (drop (length cs) rest, refl),
        ),
        λ big.
            rw (read_fat_start c x rest block) (
              read_fat_loop_long m drive info w 128 (c ∷ []) rest chain (omega arith)
                (omega arith)),
      )
