-- ===== src/Memory/Alloc.antt =====
-- `kmalloc` over a table with the layout: the first fit, or NULL.
use vireo_kernel.Prelude.{
  ℕ, ◌+◌, ◌-◌, ◌*◌, ◌≤◌, ◌<◌, ◌≡◌, ◌≢◌, ◌⊎◌, inl, inr, refl, arith, ◌∙◌, ap, how_many, false, u8,
  u32, length, dec_lt, ℕ_discrete, done, load, load-eq-done,
}
use vireo_kernel.Memory.{MemoryTable, Table, entry, free_entry, search, place, kmalloc, at_start}
use vireo_kernel.Memory.Search.{IsFree, NoFreeBelow, Fits, search_lem}
use vireo_kernel.Memory.Update.{fill, length-fill, entry-fill_in, memory_update_table-eq-fill}
use vireo_kernel.Memory.Layout.{address, block, Layout, fill-Layout}

-- The blocks that a request needs.
abbrev pub blocks_of : ℕ → ℕ
blocks_of size = how_many size 512

-- What `kmalloc` may answer: the first run of `n` free entries, now one allocation; or NULL with
-- the table as it was, if no run is long enough.
abbrev pub Granted : Table → ℕ → ℕ × Table → Type 0
Granted t n r =
    (s : ℕ) × (s + n ≤ 128)
    × IsFree t s n
    × NoFreeBelow t n s
    × (r.0 ≡ address s)
    × (r.1 ≡ fill t s n (block s n))

abbrev pub Refused : Table → ℕ → ℕ × Table → Type 0
Refused t n r = ((s : ℕ) → s + n ≤ 128 → ¬ (IsFree t s n)) × (r.0 ≡ 0) × (r.1 ≡ t)

-- The entry before a run that starts after a taken entry ends its allocation there.
before_run :
    {t : Table} (s n : ℕ)
    → Layout t
    → 0 < s
    → s < 128
    → 0 < n
    → IsFree t s n
    → (entry t (s - 1)).loc ≢ 0
    → (entry t (s - 1)).loc + (entry t (s - 1)).size * 512 ≡ address s
before_run {t} s n lay pos below n_pos f taken = elim (lay.each (s - 1) (omega arith)) [
  | inl e ↦ absurd (taken (ap (λ r. r.loc) e))
  | inr (s', n', p, q, a) ↦ elim (dec_lt s (s' + n')) [
    | yes h ↦
        absurd (
          omega
            (arith, f s (omega arith) (omega arith), ap (λ r. r.loc) (a.same s (omega arith) h)))
    | no h ↦ rw (a.same (s - 1) p q) (omega arith)
  ]
]

load-fill :
    (t : Table) (s n : ℕ) (e : MemoryTable)
    → length t ≡ 128
    → s + n ≤ 128
    → 0 < n
    → load (fill t s n e) s ≡ done e
load-fill t s n e l inside pos =
    load-eq-done (fill t s n e) s free_entry (rw length-fill (omega arith))
    ∙ ap done (entry-fill_in t s n e s (omega arith) (omega arith) (omega arith))

not_at_start : (s : ℕ) → s ≢ 0 → s < 129 → at_start s ≡ false
not_at_start s e h = ground arith

address_of_run :
    (t : Table) (s : ℕ)
    → s < 128
    → (entry t (s - 1)).loc + (entry t (s - 1)).size * 512 ≡ address s
    → u32 ((entry t (s - 1)).loc + (entry t (s - 1)).size * 512) ≡ address s
address_of_run t s h e = omega arith

-- Both branches of the placement write the same entry.
place-eq :
    (t : Table) (s n : ℕ)
    → length t ≡ 128
    → s + n ≤ 128
    → 0 < n
    → (s ≢ 0 → (entry t (s - 1)).loc + (entry t (s - 1)).size * 512 ≡ address s)
    → place t s n ≡ done (address s, fill t s n (block s n))
unfolding place
place-eq t s n l inside pos before = elim (ℕ_discrete s 0) [
  | yes e ↦
      rw
        (
          e,
          memory_update_table-eq-fill t 0 (address 0) n (omega arith) l,
          load-fill t 0 n (block 0 n) l (omega arith) pos,
        )
        refl
  | no e ↦
      rw
        (
          not_at_start s e (omega arith),
          load-eq-done t (s - 1) free_entry (omega arith),
          address_of_run t s (omega arith) (before e),
          memory_update_table-eq-fill t s (address s) n (omega arith) l,
          load-fill t s n (block s n) l inside pos,
        )
        refl
]

-- What the loop found, as an answer.
kmalloc-Fits :
    {t : Table} (n loc available : ℕ)
    → Layout t
    → 0 < n
    → n < 256
    → Fits n t loc available
    → (r : ℕ × Table) × (place t (u8 (loc + 256 - n + 1)) n ≡ done r) × Granted t n r
kmalloc-Fits {t} n loc available lay pos small fit =
    let s = loc + 1 - n in
    let inside : s + n ≤ 128 = omega (arith, fit.below, fit.enough) in
    let e : u8 (loc + 256 - n + 1) ≡ s = omega (arith, fit.below, fit.enough) in
    (
      (address s, fill t s n (block s n)),
      rw e (
          place-eq t s n lay.full_length inside pos λ ne. elim fit.starts [
            | inl z ↦ absurd (ne z)
            | inr taken ↦ before_run s n lay (omega arith) (omega arith) pos fit.free taken
          ]),
      (s, inside, fit.free, fit.none_earlier, refl, refl),
    )

kmalloc_fits_eq :
    (t : Table) (size loc available : ℕ)
    → 0 < blocks_of size
    → blocks_of size < 256
    → search (blocks_of size) t 128 0 0 ≡ (loc, available)
    → available ≡ blocks_of size
    → kmalloc t size ≡ place t (u8 (loc + 256 - blocks_of size + 1)) (blocks_of size)
unfolding kmalloc
kmalloc_fits_eq t size loc available pos small e full =
    let b : u8 (blocks_of size) ≡ blocks_of size = omega arith in rw (b, e) (ground arith)

kmalloc_exhausted_eq :
    (t : Table) (size loc available : ℕ)
    → 0 < blocks_of size
    → blocks_of size < 256
    → search (blocks_of size) t 128 0 0 ≡ (loc, available)
    → loc ≡ 128
    → available < blocks_of size
    → kmalloc t size ≡ done (0, t)
unfolding kmalloc
kmalloc_exhausted_eq t size loc available pos small e ended short =
    let b : u8 (blocks_of size) ≡ blocks_of size = omega arith in rw (b, e) (ground arith)

-- A request of 1 to 130560 bytes on a table with the layout ends without a fault: it is granted
-- the first run of free entries that is long enough, or it is refused because there is none.
pub kmalloc-first_fit :
    (t : Table) (size : ℕ)
    → Layout t
    → 0 < size
    → size ≤ 130560
    → (r : ℕ × Table) × (kmalloc t size ≡ done r)
      × (Granted t (blocks_of size) r ⊎ Refused t (blocks_of size) r)
kmalloc-first_fit t size lay pos small =
    let n = blocks_of size in
    let n_pos : 0 < blocks_of size = ground arith in
    let n_small : blocks_of size < 256 = ground arith in
    let r = search n t 128 0 0 in
    elim (search_lem n t n_pos n_small) [
      | inl fit ↦
          let (r', e, g) = kmalloc-Fits n r.0 r.1 lay n_pos n_small fit in
          (r', kmalloc_fits_eq t size r.0 r.1 n_pos n_small refl fit.full ∙ e, inl g)
      | inr ex ↦ (
        (0, t),
        kmalloc_exhausted_eq t size r.0 r.1 n_pos n_small refl ex.ended ex.short,
        inr (λ s h. ex.none_fits s (omega arith), refl, refl),
      )
    ]

-- A request of 1 to 130560 bytes, granted or refused, keeps the layout.
pub kmalloc-Layout :
    (t : Table) (size : ℕ) {r : ℕ × Table}
    → Layout t
    → 0 < size
    → size ≤ 130560
    → kmalloc t size ≡ done r
    → Layout r.1
kmalloc-Layout t size {r} lay pos small e =
    let (r', e', g) = kmalloc-first_fit t size lay pos small in
    let same : r' ≡ r = cc in
    elim g [
      | inl (s, inside, f, first, a, k) ↦
          rw (← same, k) (fill-Layout s (blocks_of size) lay (ground arith) inside f)
      | inr (none_fits, a, k) ↦ rw (← same, k) lay
    ]
