-- ===== src/Drv/Fat/Links.antt =====
-- drv/FS/fat.c: the chain that update_fat writes is the chain that FAT32_readFat reads.
use vireo_kernel.Prelude.{
  ℕ, suc, ◌+◌, ◌-◌, ◌*◌, ◌%◌, ◌^◌, ◌<◌, ◌≡◌, ◌≢◌, refl, arith, sym, ap, ◌∙◌, ◌==◌, true, false,
  done, load, List, [], ◌∷◌, ◌++◌, length, load_middle, snoc_append, length-snoc, bit_and,
}
use vireo_kernel.Prelude.Bits.{bit_and-mask}
use vireo_kernel.Drv.Machine.{Machine}
use vireo_kernel.Drv.Machine.Words.{with_word, store_word_lem}
use vireo_kernel.Drv.Machine.Medium.{IsMedium}
use vireo_kernel.Drv.Fat.{
  FsInfo, fat_sector, fat_entry, in_chain, next_in_chain, update_fat_from, update_fat,
  fat32_read_fat,
}
use vireo_kernel.Drv.Fat.Table.{
  IsInside, entry_of, mistaken_for, next_of, fat32_read_table_inside, write_entry_lem,
}
use vireo_kernel.Drv.Fat.Chains.{Chain, over, link, StartsWith, fat32_read_fat_lem}

-- A cluster that may be in a chain, with its entry in reach.
abbrev pub IsCluster : ℕ → Type 0
IsCluster c = (c ≢ 0) × (c < 0x0ffffff8) × (c % 128 < 32)

abbrev pub AllClusters : List ℕ → Type 0
AllClusters [] = Unit
AllClusters (c ∷ cs) = IsCluster c × AllClusters cs

abbrev pub IsNew : ℕ → List ℕ → Type 0
IsNew c [] = Unit
IsNew c (d ∷ ds) = (c ≢ d) × IsNew c ds

abbrev pub Distinct : List ℕ → Type 0
Distinct [] = Unit
Distinct (c ∷ cs) = IsNew c cs × Distinct cs

inside : (c : ℕ) → IsCluster c → IsInside c
inside c (nz, lt, in_sector) = (in_sector, omega arith)

-- No cluster of a list has its word where the entry of a cluster stands.
abbrev pub IsUntouched : ℕ → List ℕ → Type 0
IsUntouched d [] = Unit
IsUntouched d (c ∷ cs) = (d ≢ mistaken_for c) × IsUntouched d cs

in_chain-IsCluster : (c : ℕ) → IsCluster c → in_chain c ≡ true
in_chain-IsCluster c (nz, lt, in_sector) =
    let same : bit_and c 0x0fffffff ≡ c = bit_and-mask 28 c ∙ omega arith in rw same (ground arith)

next_in_chain_last :
    (before : List ℕ) (c : ℕ)
    → next_in_chain (before ++ (c ∷ [])) (length before + 1) (length before) ≡ done 0x0fffffff
unfolding next_in_chain
next_in_chain_last before c =
    let z : (length before == length before + 1 - 1) ≡ true = ground arith in rw z

next_in_chain_link :
    (before cs : List ℕ) (c d : ℕ)
    → d < 2 ^ 28
    → next_in_chain (before ++ (c ∷ d ∷ cs)) (length before + suc (suc (length cs))) (length before)
      ≡ done d
unfolding next_in_chain
next_in_chain_link before cs c d small =
    let z : (length before == length before + suc (suc (length cs)) - 1) ≡ false = ground arith in
    let same : bit_and d 0x0fffffff ≡ d = bit_and-mask 28 d ∙ omega arith in
    rw (
      z,
      ← snoc_append before c (d ∷ cs),
      ← length-snoc before c,
      load_middle (before ++ (c ∷ [])) d cs,
      same,
    )

module _ {W : Type 0} (m : Machine W) (drive : ℕ) (info : FsInfo) (sector : W → ℕ → List ℕ)
    (medium : IsMedium m drive sector) where
  -- The entries of a list of clusters: each holds the next one, the last one the end mark.
  abbrev Linked : W → ℕ → List ℕ → Type 0
  Linked w c [] = next_of m drive info sector medium w c ≡ 0x0fffffff
  Linked w c (d ∷ ds) = (next_of m drive info sector medium w c ≡ d) × Linked w d ds

  update_fat_from-step :
      (clusters : List ℕ) (n left i c v : ℕ) (w w' : W)
      → load clusters i ≡ done c
      → next_in_chain clusters n i ≡ done v
      → IsInside c
      → m.write_disk drive
          (fat_sector info c)
          1
          (with_word (sector w (fat_sector info c)) (4 * fat_entry c) v)
          w
        ≡ done w'
      → update_fat_from m drive info clusters n (suc left) i w
        ≡ update_fat_from m drive info clusters n left (i + 1) w'
  unfolding update_fat_from
  update_fat_from-step clusters n left i c v w w' at next (ic, sc) run =
      let e : fat_entry c ≡ 4 * (c % 128) = omega arith in
      rw (
        at,
        medium.reads w (fat_sector info c),
        next,
        store_word_lem (sector w (fat_sector info c)) (4 * fat_entry c) v
            (omega (arith, e, medium.full w (fat_sector info c))),
        run,
      )

  update_fat_from_end :
      (clusters : List ℕ) (n i : ℕ) (w : W) → update_fat_from m drive info clusters n 0 i w ≡ done w
  unfolding update_fat_from
  update_fat_from_end clusters n i w = refl

  -- What the loop leaves: the links, the words of all other clusters, and the entries on the disk.
  abbrev Wrote : W → W → ℕ → List ℕ → Type 0
  Wrote w w' c cs =
      Linked w' c cs
      × ((d : ℕ)
          → IsInside d
          → IsNew d (c ∷ cs)
          → next_of m drive info sector medium w' d ≡ next_of m drive info sector medium w d)
      × ((d : ℕ)
          → d < 2 ^ 28
          → IsUntouched d (c ∷ cs)
          → entry_of (sector w') info d ≡ entry_of (sector w) info d)

  update_fat_from_lem :
      (cs before : List ℕ) (c : ℕ) (w : W)
      → AllClusters (c ∷ cs)
      → Distinct (c ∷ cs)
      → (w' : W) × (update_fat_from m drive info
            (before ++ (c ∷ cs))
            (length before + suc (length cs))
            (suc (length cs))
            (length before)
            w
          ≡ done w')
        × Wrote w w' c cs
  update_fat_from_lem [] before c w (ic, _) distinct =
      let (w', run, here, others, entries) =
        write_entry_lem m drive info sector medium w c 0x0fffffff (inside c ic) (omega arith) in
      (
        w',
        update_fat_from-step (before ++ (c ∷ [])) (length before + 1) 0 (length before) c 0x0fffffff
              w w' (load_middle before c []) (next_in_chain_last before c) (inside c ic) run
            ∙ update_fat_from_end (before ++ (c ∷ [])) (length before + 1) (length before + 1) w',
        (here, λ d id new. others d id (λ e. new.0 (sym e)), λ d sd free. entries d sd free.0),
      )
  update_fat_from_lem (d ∷ ds) before c w (ic, all) (new, distinct) =
      let n = length before + suc (suc (length ds)) in
      let (w1, run, here, others, entries) =
        write_entry_lem m drive info sector medium w c d (inside c ic) (omega (arith, all.0.1)) in
      let (w', rest, (links, kept, untouched)) =
        update_fat_from_lem ds (before ++ (c ∷ [])) d w1 all distinct in
      let z : length before + 1 + suc (length ds) ≡ n = omega arith in
      (
        w',
        update_fat_from-step (before ++ (c ∷ d ∷ ds)) n (suc (length ds)) (length before) c d w w1
              (load_middle before c (d ∷ ds))
              (next_in_chain_link before ds c d (omega (arith, all.0.1))) (inside c ic) run
            ∙ rw (length-snoc before c, z, snoc_append before c (d ∷ ds)) at rest,
        (
          (kept c (inside c ic) new ∙ here, links),
          λ e ie ne. kept e ie ne.1 ∙ others e ie (λ same. ne.0 (sym same)),
          λ e se free. untouched e se free.1 ∙ entries e se free.0,
        ),
      )

  Chain-Linked :
      (w : W) (c : ℕ) (cs : List ℕ)
      → AllClusters (c ∷ cs)
      → Linked w c cs
      → Chain m drive info w c (c ∷ cs)
  Chain-Linked w c [] (ic, _) end =
      link c 0x0fffffff [] (in_chain-IsCluster c ic)
        (fat32_read_table_inside m drive info sector medium w c (inside c ic) ∙ ap done end)
        (over 0x0fffffff refl)
  Chain-Linked w c (d ∷ ds) (ic, all) (next, links) =
      link c d (d ∷ ds) (in_chain-IsCluster c ic)
        (fat32_read_table_inside m drive info sector medium w c (inside c ic) ∙ ap done next)
        (Chain-Linked w d ds all links)

  -- update_fat of at most 126 different clusters, each with a number below 32 modulo 128, succeeds.
  -- From then on FAT32_readFat gives just these clusters in their order, the first one twice. The
  -- entries of the table are unchanged, but for those at which the clusters' links have been put,
  -- which are the entries of the clusters that they are mistaken for.
  pub update_fat-fat32_read_fat :
      length (m.fresh_words 512) ≡ 128
      → (w : W) (c : ℕ) (cs : List ℕ) → AllClusters (c ∷ cs)
      → Distinct (c ∷ cs)
      → length (c ∷ cs) < 127
      → (w' : W) × (update_fat m drive info (c ∷ cs) (length (c ∷ cs)) w ≡ done w')
        × ((clusters : List ℕ) × (fat32_read_fat m drive info c w'
              ≡ done (clusters, 1 + length (c ∷ cs)))
            × StartsWith (c ∷ c ∷ cs) clusters)
        × ((d : ℕ)
            → d < 2 ^ 28
            → IsUntouched d (c ∷ cs)
            → entry_of (sector w') info d ≡ entry_of (sector w) info d)
  unfolding update_fat
  update_fat-fat32_read_fat room w c cs all distinct short =
      let (w', run, (links, _, untouched)) = update_fat_from_lem cs [] c w all distinct in
      let chain = fat32_read_fat_lem m drive info w' room (Chain-Linked w' c cs all links) in
      let z : 0 + suc (length cs) ≡ suc (length cs) = omega arith in
      (w', rw z at run, chain.0 (omega arith), untouched)
