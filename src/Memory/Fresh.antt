-- ===== src/Memory/Fresh.antt =====
-- The memory that `kmalloc` hands out is nobody else's, while the block count fits 8 bits.
use vireo_kernel.Prelude.{
  ℕ, suc, ◌+◌, ◌*◌, ◌≤◌, ◌<◌, ◌≡◌, ◌≢◌, ◌⊎◌, inl, inr, refl, arith, sym, ◌∙◌, ap, length, done,
  load-eq-done, u8,
}
use vireo_kernel.Memory.{Table, entry, free_entry, search, place, kmalloc}
use vireo_kernel.Memory.Layout.{
  address, block, Allocation, Layout, Allocation-IsFree, Allocation-fill, fill-Allocation,
}
use vireo_kernel.Memory.Alloc.{blocks_of, kmalloc-first_fit}

-- For a request of 1 to 130560 bytes an address other than NULL is that of a new allocation of the
-- size asked for; every allocation from before is still there, and the two do not overlap.
pub kmalloc-fresh :
    (t : Table) (size : ℕ) {r : ℕ × Table}
    → Layout t
    → 0 < size
    → size ≤ 130560
    → kmalloc t size ≡ done r
    → r.0 ≢ 0
    → (s : ℕ) × (r.0 ≡ address s)
      × (size ≤ 512 * blocks_of size)
      × Allocation r.1 s (blocks_of size)
      × ((s' n' : ℕ)
          → Allocation t s' n'
          → Allocation r.1 s' n' × ((s' + n' ≤ s) ⊎ (s + blocks_of size ≤ s')))
kmalloc-fresh t size {r} lay pos small e ne =
    let (r', e', g) = kmalloc-first_fit t size lay pos small in
    let same : r' ≡ r = cc in
    let n_pos : 0 < blocks_of size = ground arith in
    elim g [
      | inr (none_fits, a, k) ↦ absurd (ne (ap (λ (x : ℕ × Table). x.0) (sym same) ∙ a))
      | inl (s, inside, f, first, a, k) ↦
          let table : r.1 ≡ _ = ap (λ (x : ℕ × Table). x.1) (sym same) ∙ k in
          (
            s,
            ap (λ (x : ℕ × Table). x.0) (sym same) ∙ a,
            ground arith,
            rw table (fill-Allocation t s (blocks_of size) lay.full_length n_pos inside),
            λ s' n' b.
                let apart : (s' + n' ≤ s) ⊎ (s + blocks_of size ≤ s') =
                  omega (arith, Allocation-IsFree s (blocks_of size) b f) in
                (
                  rw table (Allocation-fill s (blocks_of size) (block s (blocks_of size)) b apart),
                  apart,
                ),
          )
    ]

search-zero :
    (t : Table) (left loc available : ℕ)
    → (entry t loc).loc ≢ 0
    → search 0 t (suc left) loc available ≡ (loc, 0)
unfolding search
search-zero t left loc available h = ground arith

place-zero :
    {t : Table} {n : ℕ} → Layout t → Allocation t 0 n → 2 ≤ n → place t 1 0 ≡ done (address 0, t)
unfolding place
place-zero {t} {n} lay a two =
    let l : 1 < length t = omega (arith, lay.full_length) in
    rw
      (
        load-eq-done t 0 free_entry (omega arith),
        load-eq-done t 1 free_entry l,
        a.same 1 (omega arith) (omega arith),
      )
      refl

-- The block count is cut to 8 bits. A request whose count is a multiple of 256, such as 131072
-- bytes, is not refused: with an allocation of two blocks or more at the start of the table its
-- answer is the address of that allocation, and the table stays as it was.
pub kmalloc_count_wraps :
    (t : Table) (size : ℕ) {n : ℕ}
    → Layout t
    → Allocation t 0 n
    → 2 ≤ n
    → u8 (blocks_of size) ≡ 0
    → kmalloc t size ≡ done (address 0, t)
unfolding kmalloc
kmalloc_count_wraps t size {n} lay a two wraps =
    let taken : (entry t 0).loc ≢ 0 =
      (λ e. omega (arith, ap (λ r. r.loc) (a.same 0 (omega arith) (omega arith)))) in
    rw (wraps, search-zero t 127 0 0 taken) (place-zero lay a two)
