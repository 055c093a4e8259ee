-- ===== src/Memory/Free.antt =====
-- `kfree` gives a whole allocation back.
use vireo_kernel.Prelude.{
  ℕ, zero, suc, ◌+◌, ◌-◌, ◌≤◌, ◌<◌, ◌≡◌, ◌≢◌, inl, inr, refl, arith, sym, ◌∙◌, ap, length,
  get_or_ext, get_or-eq-default, dec_lt, ℕ_discrete, done, fault, load-eq-done, load-eq-fault, u8,
  false, ◌==◌,
}
use vireo_kernel.Memory.{MemoryTable, Table, entry, free_entry, find_loc, kmalloc, kfree}
use vireo_kernel.Memory.Search.{IsFree}
use vireo_kernel.Memory.Update.{
  fill, length-fill, entry-fill_in, entry-fill_out, update_from-eq-fill,
}
use vireo_kernel.Memory.Layout.{
  address, block, Allocation, Layout, fill-Allocation, fill-Layout, free-Layout, Outside-cases,
}
use vireo_kernel.Memory.Alloc.{blocks_of, kmalloc-first_fit}

-- The search stops at the first entry with the address, if one is at or above `i`.
find_loc-eq :
    (t : Table) (ptr left i s : ℕ)
    → i + left ≡ 128
    → i ≤ s
    → s < 128
    → (entry t s).loc ≡ ptr
    → ((j : ℕ) → j < s → (entry t j).loc ≢ ptr)
    → find_loc t ptr left i ≡ s
unfolding find_loc
find_loc-eq t ptr zero i s e lo hi found first = absurd (omega arith)
find_loc-eq t ptr (suc left) i s e lo hi found first = elim (ℕ_discrete i s) [
  | yes h ↦ rw (h) (ground arith)
  | no h ↦ ground (arith, first i, find_loc-eq t ptr left (i + 1) s)
]

-- An entry whose address is that of block `s` belongs to the allocation there.
first_of_block :
    {t : Table} {s n : ℕ}
    → Layout t
    → Allocation t s n
    → (j : ℕ) → j < s
    → (entry t j).loc ≢ address s
first_of_block {t} {s} {n} lay a j below e = elim (lay.each j (omega (arith, a.inside))) [
  | inl free ↦ omega (arith, ap (λ r. r.loc) free)
  | inr (s', n', p, q, b) ↦ omega (arith, ap (λ r. r.loc) (b.same j p q))
]

not_null : (ptr : ℕ) → ptr ≢ 0 → (ptr == 0) ≡ false
not_null ptr h = ground arith

address_ne_null : (s : ℕ) → (address s == 0) ≡ false
address_ne_null s = ground arith

range_of : (s n : ℕ) → s + n ≤ 128 → u8 (s + n) - s ≡ n
range_of s n h = omega arith

-- Freeing the address of an allocation clears exactly its entries.
pub kfree-eq-fill :
    {t : Table} {s n : ℕ}
    → Layout t
    → Allocation t s n
    → kfree t (address s) ≡ done (fill t s n free_entry)
unfolding kfree
kfree-eq-fill {t} {s} {n} lay a =
    let pos = a.positive in
    let at_s = a.same s (omega arith) (omega arith) in
    let found : find_loc t (address s) 128 0 ≡ s =
      find_loc-eq t (address s) 128 0 s refl (omega arith) (omega (arith, a.inside))
        (ap (λ r. r.loc) at_s) (first_of_block lay a) in
    rw
      (
        address_ne_null s,
        found,
        load-eq-done t s free_entry (omega (arith, a.inside, lay.full_length)),
        at_s,
        range_of s n a.inside,
        update_from-eq-fill t s n free_entry (omega (arith, a.inside, lay.full_length)),
      )
      refl

-- Freeing an allocation keeps the layout.
pub kfree-Layout :
    {t : Table} {s n : ℕ} (t' : Table)
    → Layout t
    → Allocation t s n
    → kfree t (address s) ≡ done t'
    → Layout t'
kfree-Layout {t} {s} {n} t' lay a e =
    let same : fill t s n free_entry ≡ t' = cc (kfree-eq-fill lay a) in
    rw (← same) (free-Layout lay a)

-- An address that no entry has is looked for to the end of the table.
find_loc-none :
    (t : Table) (ptr left i : ℕ)
    → i + left ≡ 128
    → ((j : ℕ) → j < 128 → (entry t j).loc ≢ ptr)
    → find_loc t ptr left i ≡ 128
unfolding find_loc
find_loc-none t ptr zero i e none_has = omega arith
find_loc-none t ptr (suc left) i e none_has =
    ground (arith, none_has i, find_loc-none t ptr left (i + 1))

-- `kfree` of an address that is not NULL and that no entry holds, such as one of `valloc`, reads
-- `memory_t[128]`, past the end of the table.
pub kfree_unknown :
    (t : Table) (ptr : ℕ)
    → length t ≡ 128
    → ptr ≢ 0
    → ((j : ℕ) → j < 128 → (entry t j).loc ≢ ptr)
    → kfree t ptr ≡ fault
unfolding kfree
kfree_unknown t ptr l ne none_has =
    rw (not_null ptr ne, find_loc-none t ptr 128 0 refl none_has, load-eq-fault t 128 (omega arith))
      refl

-- Under the layout an entry with address 0 is a cleared one.
cleared : {t : Table} (j : ℕ) → Layout t → (entry t j).loc ≡ 0 → entry t j ≡ free_entry
cleared {t} j lay e = elim (dec_lt j 128) [
  | no h ↦ get_or-eq-default t j free_entry (omega (arith, lay.full_length))
  | yes h ↦ elim (lay.each j h) [
    | inl free ↦ free
    | inr (s, n, p, q, a) ↦ absurd (omega (arith, ap (λ r. r.loc) (a.same j p q)))
  ]
]

-- Clearing a run that was free and then filled gives the table back.
fill-fill :
    {t : Table} (s n : ℕ) (e : MemoryTable)
    → Layout t
    → s + n ≤ 128
    → IsFree t s n
    → fill (fill t s n e) s n free_entry ≡ t
fill-fill {t} s n e lay inside f =
    get_or_ext free_entry (fill (fill t s n e) s n free_entry) t
      (length-fill (fill t s n e) s n free_entry ∙ length-fill t s n e)
      λ j. elim (Outside-cases s n j) [
        | inl out ↦
            entry-fill_out (fill t s n e) s n free_entry j out ∙ entry-fill_out t s n e j out
        | inr (p, q) ↦
            entry-fill_in (fill t s n e) s n free_entry j
              (rw length-fill (omega (arith, lay.full_length))) p q
            ∙ sym (cleared j lay (f j p q))
      ]

-- Freeing what a request of 1 to 130560 bytes was just granted gives back the table from before the request.
pub kmalloc-kfree :
    (t : Table) (size : ℕ) {r : ℕ × Table}
    → Layout t
    → 0 < size
    → size ≤ 130560
    → kmalloc t size ≡ done r
    → r.0 ≢ 0
    → kfree r.1 r.0 ≡ done t
kmalloc-kfree t size {r} lay pos small e ne =
    let (r', e', g) = kmalloc-first_fit t size lay pos small in
    let same : r' ≡ r = cc in
    elim g [
      | inr (none_fits, a, k) ↦ absurd (ne (ap (λ (x : ℕ × Table). x.0) (sym same) ∙ a))
      | inl (s, inside, f, first, a, k) ↦
          let n = blocks_of size in
          let n_pos : 0 < blocks_of size = ground arith in
          rw (← same, a, k)
            (kfree-eq-fill (fill-Layout s n lay n_pos inside f)
                (fill-Allocation t s n lay.full_length n_pos inside)
              ∙ ap done (fill-fill s n (block s n) lay inside f))
    ]
