-- ===== src/Memory/Layout.antt =====
-- What the table of `kmalloc` looks like at all times: free entries and whole allocations.
use vireo_kernel.Prelude.{
  ℕ, ◌+◌, ◌*◌, ◌≤◌, ◌<◌, ◌≡◌, ◌⊎◌, inl, inr, refl, arith, sym, ◌∙◌, ap, length, dec_lt,
  get_or-replicate,
}
use vireo_kernel.Memory.{MemoryTable, Table, entry, free_entry, empty_table, memory_malloc_memstrt}
use vireo_kernel.Memory.Search.{IsFree}
use vireo_kernel.Memory.Update.{fill, length-fill, entry-fill_in, entry-fill_out}

-- The address of the block at index `s`.
abbrev pub address : ℕ → ℕ
address s = memory_malloc_memstrt + 512 * s

-- Every entry of an allocation of `n` blocks from index `s` on.
abbrev pub block : ℕ → ℕ → MemoryTable
block s n = record { loc = address s; size = n }

-- `n` entries from `s` on are one allocation.
pub record Allocation (t : Table) (s n : ℕ) : Type 0 where
  pub positive : 0 < n
  pub inside : s + n ≤ 128
  pub same : (j : ℕ) → s ≤ j → j < s + n → entry t j ≡ block s n

-- Index `i` lies in an allocation.
abbrev pub Taken : Table → ℕ → Type 0
Taken t i = (s : ℕ) × (n : ℕ) × (s ≤ i) × (i < s + n) × Allocation t s n

pub record Layout (t : Table) : Type 0 where
  pub full_length : length t ≡ 128
  pub each : (i : ℕ) → i < 128 → (entry t i ≡ free_entry) ⊎ Taken t i

pub empty_table-Layout : Layout empty_table
empty_table-Layout = record {
  full_length = refl;
  each = λ i h. inl (get_or-replicate 128 free_entry free_entry i h);
}

loc_of_same : {a b : MemoryTable} → a ≡ b → a.loc ≡ b.loc
loc_of_same e = ap (λ r. r.loc) e

-- An allocation and a run of free entries do not meet.
pub Allocation-IsFree :
    {t : Table} {s n : ℕ} (i m : ℕ)
    → Allocation t s n
    → IsFree t i m
    → (s + n ≤ i) ⊎ (i + m ≤ s) ⊎ (m ≡ 0)
Allocation-IsFree {t} {s} {n} i m a f = elim (dec_lt i (s + n)) [
  | no p ↦ inl (omega arith)
  | yes p ↦ elim (dec_lt s (i + m)) [
    | no q ↦ inr (inl (omega arith))
    | yes q ↦ elim (dec_lt i s) [
      | yes r ↦ absurd (
          omega (
            arith,
            loc_of_same (a.same s (omega arith) (omega (arith, a.positive))),
            f s (omega arith) q,
          ))
      | no r ↦ elim (dec_lt 0 m) [
        | yes pos ↦
            absurd (
              omega
                (arith, loc_of_same (a.same i (omega arith) p), f i (omega arith) (omega arith)))
        | no none ↦ inr (inr (omega arith))
      ]
    ]
  ]
]

pub Outside-cases : (i m j : ℕ) → ((j < i) ⊎ (i + m ≤ j)) ⊎ ((i ≤ j) × (j < i + m))
Outside-cases i m j = ground arith

-- The allocation survives a write elsewhere.
pub Allocation-fill :
    {t : Table} {s n : ℕ} (i m : ℕ) (e : MemoryTable)
    → Allocation t s n
    → (s + n ≤ i) ⊎ (i + m ≤ s)
    → Allocation (fill t i m e) s n
Allocation-fill {t} {s} {n} i m e a apart = record {
  positive = a.positive;
  inside = a.inside;
  same = λ j p q. entry-fill_out t i m e j (omega arith) ∙ a.same j p q;
}

pub fill-Allocation :
    (t : Table) (i m : ℕ)
    → length t ≡ 128
    → 0 < m
    → i + m ≤ 128
    → Allocation (fill t i m (block i m)) i m
fill-Allocation t i m l pos inside = record {
  positive = pos;
  inside = inside;
  same = λ j p q. entry-fill_in t i m (block i m) j (omega arith) p q;
}

-- An index outside a write keeps its state, if its allocation does not meet the write.
each-fill_out :
    {t : Table} (i m : ℕ) (e : MemoryTable) (j : ℕ)
    → (j < i) ⊎ (i + m ≤ j)
    → ((s n : ℕ) → s ≤ j → j < s + n → Allocation t s n → (s + n ≤ i) ⊎ (i + m ≤ s))
    → (entry t j ≡ free_entry) ⊎ Taken t j
    → (entry (fill t i m e) j ≡ free_entry) ⊎ Taken (fill t i m e) j
each-fill_out {t} i m e j out apart (inl h) = inl (entry-fill_out t i m e j out ∙ h)
each-fill_out i m e j out apart (inr (s, n, p, q, a)) =
    inr (s, n, p, q, Allocation-fill i m e a (apart s n p q a))

-- Marking a free run keeps the layout.
pub fill-Layout :
    {t : Table} (i m : ℕ)
    → Layout t
    → 0 < m
    → i + m ≤ 128
    → IsFree t i m
    → Layout (fill t i m (block i m))
fill-Layout {t} i m lay pos inside f = record {
  full_length = length-fill t i m (block i m) ∙ lay.full_length;
  each = λ j h. elim (Outside-cases i m j) [
    | inl out ↦
        each-fill_out i m (block i m) j out (λ s n p q a. omega (arith, Allocation-IsFree i m a f))
          (lay.each j h)
    | inr (p, q) ↦ inr (i, m, p, q, fill-Allocation t i m lay.full_length pos inside)
  ];
}

-- Two allocations that share an index are one.
pub Allocation-unique :
    {t : Table} {s n s' n' : ℕ} (j : ℕ)
    → Allocation t s n
    → Allocation t s' n'
    → s ≤ j
    → j < s + n
    → s' ≤ j
    → j < s' + n'
    → (s ≡ s') × (n ≡ n')
Allocation-unique j a b p q p' q' =
    let same = sym (a.same j p q) ∙ b.same j p' q' in
    (omega (arith, loc_of_same same), ap (λ r. r.size) same)

Allocation-apart :
    {t : Table} (s n s' n' j : ℕ)
    → Allocation t s n
    → Allocation t s' n'
    → (j < s) ⊎ (s + n ≤ j)
    → s' ≤ j
    → j < s' + n'
    → (s' + n' ≤ s) ⊎ (s + n ≤ s')
Allocation-apart s n s' n' j a b out p q = elim (dec_lt s (s' + n')) [
  | no h ↦ inl (omega arith)
  | yes h ↦ elim (dec_lt s' (s + n)) [
    | no k ↦ inr (omega arith)
    | yes k ↦ elim (dec_lt s s') [
      | yes r ↦
          let e =
            Allocation-unique s' a b (omega arith) k (omega arith) (omega (arith, b.positive)) in
          absurd (omega (arith, e))
      | no r ↦
          let e =
            Allocation-unique s a b (omega arith) (omega (arith, a.positive)) (omega arith) h in
          absurd (omega (arith, e))
    ]
  ]
]

-- Freeing a whole allocation keeps the layout.
pub free-Layout :
    {t : Table} {s n : ℕ} → Layout t → Allocation t s n → Layout (fill t s n free_entry)
free-Layout {t} {s} {n} lay a = record {
  full_length = length-fill t s n free_entry ∙ lay.full_length;
  each = λ j h. elim (Outside-cases s n j) [
    | inl out ↦
        each-fill_out s n free_entry j out (λ s' n' p q b. Allocation-apart s n s' n' j a b out p q)
          (lay.each j h)
    | inr (p, q) ↦
        inl (entry-fill_in t s n free_entry j (omega (arith, a.inside, lay.full_length)) p q)
  ];
}
