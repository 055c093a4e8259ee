-- ===== src/Drv/Fat/Table.antt =====
-- drv/FS/fat.c: one entry of the table, read and written.
use vireo_kernel.Prelude.{
  ℕ, ◌+◌, ◌*◌, ◌/◌, ◌%◌, ◌^◌, ◌≤◌, ◌<◌, ◌≡◌, ◌≢◌, ◌⊎◌, inl, inr, arith, ap, ◌∙◌, u32, done, fault,
  List, ℕ_discrete,
}
use vireo_kernel.Prelude.Bits.{bit_and-mask}
use vireo_kernel.Dsk.Mbr.Entries.{word, word_at_lem}
use vireo_kernel.Drv.Machine.{Machine}
use vireo_kernel.Drv.Machine.Words.{
  with_word, length-with_word, word-with_word, word-with_word_ne, word_at_fault,
}
use vireo_kernel.Drv.Machine.Medium.{IsMedium}
use vireo_kernel.Drv.Fat.{FsInfo, fat_sector, fat_entry, fat32_read_table}

-- A cluster whose entry stands inside the sector that is read for it: the index of the entry in the
-- sector is counted in bytes and used for words.
abbrev pub IsInside : ℕ → Type 0
IsInside c = (c % 128 < 32) × (c < 2 ^ 28)

-- The entry of a cluster in the table on the disk: the table has 32-bit entries in order, 128 in each
-- sector from `fatsector` on, and the highest four bits of an entry do not count.
abbrev pub entry_of : (ℕ → List ℕ) → FsInfo → ℕ → ℕ
entry_of sectors info c = word (sectors (u32 (info.fatsector + c / 128))) (4 * (c % 128)) % 2 ^ 28

-- The cluster whose entry is taken for that of a cluster with a number below 32 modulo 128.
abbrev pub mistaken_for : ℕ → ℕ
mistaken_for c = c / 128 * 128 + 4 * (c % 128)

-- Different entries stand in different sectors, or apart.
apart :
    (info : FsInfo) (c d : ℕ)
    → IsInside c
    → IsInside d
    → c ≢ d
    → (fat_sector info d ≢ fat_sector info c)
      ⊎ ((4 * fat_entry d + 3 < 4 * fat_entry c) ⊎ (4 * fat_entry c + 3 < 4 * fat_entry d))
apart info c d (ic, sc) (id, sd) ne =
    let ec : fat_entry c ≡ 4 * (c % 128) = omega arith in
    let ed : fat_entry d ≡ 4 * (d % 128) = omega arith in
    let qc : u32 (c * 4) / 512 ≡ c / 128 = omega arith in
    let qd : u32 (d * 4) / 512 ≡ d / 128 = omega arith in
    elim (ℕ_discrete (c / 128) (d / 128)) [
      | yes same ↦ inr (rw (ec, ed) (ground arith))
      | no differ ↦ inl (rw (qc, qd) (λ e. differ (omega arith)))
    ]

-- The word that is written for a cluster and the entry of any other cluster than the one it is taken for.
apart_entry :
    (info : FsInfo) (c d : ℕ)
    → IsInside c
    → d < 2 ^ 28
    → d ≢ mistaken_for c
    → (u32 (info.fatsector + d / 128) ≢ fat_sector info c)
      ⊎ ((4 * (d % 128) + 3 < 4 * fat_entry c) ⊎ (4 * fat_entry c + 3 < 4 * (d % 128)))
apart_entry info c d (ic, sc) sd ne =
    let ec : fat_entry c ≡ 4 * (c % 128) = omega arith in
    let qc : u32 (c * 4) / 512 ≡ c / 128 = omega arith in
    elim (ℕ_discrete (c / 128) (d / 128)) [
      | yes same ↦ inr (rw ec (ground arith))
      | no differ ↦ inl (rw qc (λ e. differ (omega arith)))
    ]

module _ {W : Type 0} (m : Machine W) (drive : ℕ) (info : FsInfo) (sector : W → ℕ → List ℕ)
    (medium : IsMedium m drive sector) where
  -- The word that FAT32_read_table reads for a cluster.
  abbrev pub next_of : W → ℕ → ℕ
  next_of w c = word (sector w (fat_sector info c)) (4 * fat_entry c) % 2 ^ 28

  pub fat32_read_table_inside :
      (w : W) (c : ℕ) → IsInside c → fat32_read_table m drive info c w ≡ done (next_of w c)
  unfolding fat32_read_table
  fat32_read_table_inside w c (ic, sc) =
      let e : fat_entry c ≡ 4 * (c % 128) = omega arith in
      let bytes = sector w (fat_sector info c) in
      rw (
        medium.reads w (fat_sector info c),
        word_at_lem bytes (4 * fat_entry c) (omega (arith, e, medium.full w (fat_sector info c))),
        bit_and-mask 28 (word bytes (4 * fat_entry c)),
      )

  pub next_of-entry_of :
      (w : W) (c : ℕ) → IsInside c → next_of w c ≡ entry_of (sector w) info (mistaken_for c)
  next_of-entry_of w c (ic, sc) =
      let q : u32 (c * 4) / 512 ≡ mistaken_for c / 128 = omega arith in
      let e : 4 * fat_entry c ≡ 4 * (mistaken_for c % 128) = omega arith in
      ap (λ (l : ℕ). word (sector w (u32 (info.fatsector + l))) (4 * fat_entry c) % 2 ^ 28) q
      ∙ ap (λ (b : ℕ). word (sector w (u32 (info.fatsector + mistaken_for c / 128))) b % 2 ^ 28) e

  -- FAT32_read_table answers with the entry of another cluster for the clusters with a number below
  -- 32 modulo 128: counted from the start of the table's sector, with that of the one four times as
  -- far. For a multiple of 128 this is the right entry. For all other clusters it reads past the
  -- end of the sector's buffer.
  pub fat32_read_table_lem :
      (w : W) (c : ℕ)
      → c < 2 ^ 28
      → (c % 128 < 32
          → fat32_read_table m drive info c w ≡ done (entry_of (sector w) info (mistaken_for c)))
        × (c % 128 ≡ 0 → fat32_read_table m drive info c w ≡ done (entry_of (sector w) info c))
        × (32 ≤ c % 128 → fat32_read_table m drive info c w ≡ fault)
  unfolding fat32_read_table
  fat32_read_table_lem w c small = (
    λ ic. fat32_read_table_inside w c (ic, small) ∙ ap done (next_of-entry_of w c (ic, small)),
    λ first.
        let ic : IsInside c = (omega arith, small) in
        let same : mistaken_for c ≡ c = omega arith in
        fat32_read_table_inside w c ic
        ∙ ap done (next_of-entry_of w c ic ∙ ap (λ (d : ℕ). entry_of (sector w) info d) same),
    λ oc.
        let e : fat_entry c ≡ 4 * (c % 128) = omega arith in
        rw (
          medium.reads w (fat_sector info c),
          word_at_fault (sector w (fat_sector info c)) (4 * fat_entry c)
              (omega (arith, e, medium.full w (fat_sector info c))),
        ),
  )

  -- Writing the word for one cluster keeps those for the others in reach, and the entries of all
  -- clusters but the one that it is taken for.
  pub write_entry_lem :
      (w : W) (c v : ℕ)
      → IsInside c
      → v < 2 ^ 28
      → (w' : W) × (m.write_disk drive
            (fat_sector info c)
            1
            (with_word (sector w (fat_sector info c)) (4 * fat_entry c) v)
            w
          ≡ done w')
        × (next_of w' c ≡ v)
        × ((d : ℕ) → IsInside d → c ≢ d → next_of w' d ≡ next_of w d)
        × ((d : ℕ)
            → d < 2 ^ 28
            → d ≢ mistaken_for c
            → entry_of (sector w') info d ≡ entry_of (sector w) info d)
  write_entry_lem w c v (ic, sc) small =
      let bytes = sector w (fat_sector info c) in
      let at = 4 * fat_entry c in
      let e : fat_entry c ≡ 4 * (c % 128) = omega arith in
      let (w', run, here, others) =
        medium.writes w (fat_sector info c) (with_word bytes at v)
          (length-with_word bytes at v ∙ medium.full w (fat_sector info c)) in
      (
        w',
        run,
        rw
            (
              here,
              word-with_word bytes at v (omega (arith, e, medium.full w (fat_sector info c)))
                  (omega arith),
            )
            (omega arith),
        λ d id ne. elim (ℕ_discrete (fat_sector info d) (fat_sector info c)) [
          | no elsewhere ↦
              ap (λ b. word b (4 * fat_entry d) % 2 ^ 28) (others (fat_sector info d) elsewhere)
          | yes same ↦ elim (apart info c d (ic, sc) id ne) [
            | inl differ ↦ absurd (differ same)
            | inr far ↦ rw (same, here, word-with_word_ne bytes at v (4 * fat_entry d) far)
          ]
        ],
        λ d sd ne. elim (ℕ_discrete (u32 (info.fatsector + d / 128)) (fat_sector info c)) [
          | no elsewhere ↦
              ap (λ b. word b (4 * (d % 128)) % 2 ^ 28)
                (others (u32 (info.fatsector + d / 128)) elsewhere)
          | yes same ↦ elim (apart_entry info c d (ic, sc) sd ne) [
            | inl differ ↦ absurd (differ same)
            | inr far ↦ rw (same, here, word-with_word_ne bytes at v (4 * (d % 128)) far)
          ]
        ],
      )
