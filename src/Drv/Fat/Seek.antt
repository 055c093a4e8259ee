-- ===== src/Drv/Fat/Seek.antt =====
-- drv/FS/fat.c: the search for clusters that are not in use.
use vireo_kernel.Prelude.{
  ℕ, zero, suc, ◌+◌, ◌-◌, ◌<◌, ◌≡◌, ◌≢◌, arith, ap, ◌∙◌, ◌==◌, leb, false, bit_and, done, load,
  load-eq-done, store-eq-done, set, length-set, get_or-set_self, List, length, some,
}
use vireo_kernel.Prelude.Bits.{bit_and-mask}
use vireo_kernel.Drv.Machine.{Machine}
use vireo_kernel.Drv.Machine.Medium.{IsMedium}
use vireo_kernel.Drv.Fat.{FsInfo, last_cluster, seek_loop, seek_empty_clusters}
use vireo_kernel.Drv.Fat.Table.{IsInside, next_of, fat32_read_table_inside}

module _ {W : Type 0} (m : Machine W) (drive : ℕ) (info : FsInfo) (sector : W → ℕ → List ℕ)
    (medium : IsMedium m drive sector) (w : W) where
  entry_bits :
      (c : ℕ)
      → bit_and (next_of m drive info sector medium w c) 0x0fffffff
        ≡ next_of m drive info sector medium w c
  entry_bits c = bit_and-mask 28 (next_of m drive info sector medium w c) ∙ omega arith

  seek_loop_used :
      (left i : ℕ) (clusters : List ℕ)
      → IsInside i
      → next_of m drive info sector medium w i ≢ 0
      → seek_loop m drive info (suc left) clusters 1 0 i w
        ≡ seek_loop m drive info left clusters 1 0 (i + 1) w
  unfolding seek_loop
  seek_loop_used left i clusters inside used =
      let busy : (next_of m drive info sector medium w i == 0) ≡ false = ground arith in
      rw (fat32_read_table_inside m drive info sector medium w i inside, entry_bits i, busy)

  seek_loop_free :
      (left i : ℕ) (clusters : List ℕ)
      → IsInside i
      → next_of m drive info sector medium w i ≡ 0
      → 0 < length clusters
      → seek_loop m drive info (suc left) clusters 1 0 i w ≡ done (set clusters 0 i, i)
  unfolding seek_loop
  seek_loop_free left i clusters inside free room = rw (
    fat32_read_table_inside m drive info sector medium w i inside,
    entry_bits i,
    free,
    store-eq-done clusters 0 i room,
  )

  seek_loop_first :
      (k left i : ℕ) (clusters : List ℕ)
      → ((j : ℕ) → j < k → IsInside (i + j) × (next_of m drive info sector medium w (i + j) ≢ 0))
      → IsInside (i + k)
      → next_of m drive info sector medium w (i + k) ≡ 0
      → k < left
      → 0 < length clusters
      → seek_loop m drive info left clusters 1 0 i w ≡ done (set clusters 0 (i + k), i + k)
  seek_loop_first k zero i clusters used inside free fuel room = absurd (omega arith)
  seek_loop_first zero (suc left) i clusters used inside free fuel room =
      let z : i + 0 ≡ i = omega arith in
      rw z (seek_loop_free left i clusters (rw z at inside) (rw z at free) room)
  seek_loop_first (suc k) (suc left) i clusters used inside free fuel room =
      let z : i + 0 ≡ i = omega arith in
      let next : (j : ℕ) → i + suc j ≡ i + 1 + j = λ j. omega arith in
      let first = used 0 (omega arith) in
      seek_loop_used left i clusters (rw z at first.0) (rw z at first.1)
      ∙ rw (next k) (
          seek_loop_first k left (i + 1) clusters
            (λ j h. rw (next j) at (used (suc j) (omega arith))) (rw (next k) at inside)
            (rw (next k) at free) (omega arith) room)

  -- The first free cluster from the root directory's on is found, if its entry and those before it are
  -- in reach.
  pub seek_empty_clusters_first :
      (k : ℕ)
      → ((j : ℕ)
          → j < k
          → IsInside (info.rootcluster + j)
            × (next_of m drive info sector medium w (info.rootcluster + j) ≢ 0))
      → IsInside (info.rootcluster + k)
      → next_of m drive info sector medium w (info.rootcluster + k) ≡ 0
      → info.rootcluster + k < last_cluster
      → 0 < length (m.fresh_words 4)
      → (clusters : List ℕ) × (seek_empty_clusters m drive info 1 w ≡ done (some clusters))
        × (load clusters 0 ≡ done (info.rootcluster + k))
  unfolding seek_empty_clusters
  seek_empty_clusters_first k used inside free below room =
      let found = info.rootcluster + k in
      let block = m.fresh_words 4 in
      let run =
        seek_loop_first k (last_cluster - info.rootcluster) info.rootcluster block used inside free
          (omega arith) room in
      let early : leb 0x0ffffff8 found ≡ false = ground arith in
      (
        set block 0 found,
        rw (run, early),
        load-eq-done (set block 0 found) 0 0 (omega (arith, length-set block 0 found))
            ∙ ap done (get_or-set_self block 0 found 0 room),
      )
