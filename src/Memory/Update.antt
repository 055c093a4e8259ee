-- ===== src/Memory/Update.antt =====
-- `memory_update_table` writes one entry to a range of the table.
use vireo_kernel.Prelude.{
  ℕ, zero, suc, ◌+◌, ◌-◌, ◌%◌, ◌^◌, ◌≤◌, ◌<◌, ◌≡◌, ◌⊎◌, inl, refl, arith, ◌∙◌, length, set, done,
  length-set, get_or-set_self, get_or-set_ne, store-eq-done, ℕ_discrete,
}
use vireo_kernel.Memory.{MemoryTable, Table, entry, free_entry, update_from, memory_update_table}

-- The table with `e` at the `n` indices from `i` on.
abbrev pub fill : Table → ℕ → ℕ → MemoryTable → Table
fill t i zero e = t
fill t i (suc n) e = fill (set t i e) (i + 1) n e

pub length-fill : (t : Table) (i n : ℕ) (e : MemoryTable) → length (fill t i n e) ≡ length t
length-fill t i zero e = refl
length-fill t i (suc n) e = length-fill (set t i e) (i + 1) n e ∙ length-set t i e

pub entry-fill_out :
    (t : Table) (i n : ℕ) (e : MemoryTable) (j : ℕ)
    → (j < i) ⊎ (i + n ≤ j)
    → entry (fill t i n e) j ≡ entry t j
entry-fill_out t i zero e j h = refl
entry-fill_out t i (suc n) e j h =
    entry-fill_out (set t i e) (i + 1) n e j (ground arith)
    ∙ get_or-set_ne t i j e free_entry (omega arith)

pub entry-fill_in :
    (t : Table) (i n : ℕ) (e : MemoryTable) (j : ℕ)
    → i + n ≤ length t
    → i ≤ j
    → j < i + n
    → entry (fill t i n e) j ≡ e
entry-fill_in t i zero e j b p q = absurd (omega arith)
entry-fill_in t i (suc n) e j b p q = elim (ℕ_discrete i j) [
  | yes h ↦
      entry-fill_out (set t i e) (i + 1) n e j (inl (omega arith))
      ∙ rw (← h) (get_or-set_self t i e free_entry (omega arith))
  | no h ↦
      entry-fill_in (set t i e) (i + 1) n e j (rw length-set (omega arith)) (omega arith)
        (omega arith)
]

-- A range inside the table is written without a fault.
pub update_from-eq-fill :
    (t : Table) (i n : ℕ) (e : MemoryTable)
    → i + n ≤ length t
    → update_from t i n e ≡ done (fill t i n e)
unfolding update_from
update_from-eq-fill t i zero e b = refl
update_from-eq-fill t i (suc n) e b =
    rw (store-eq-done t i e (omega arith))
      (update_from-eq-fill (set t i e) (i + 1) n e (rw length-set (omega arith)))

pub memory_update_table-eq-fill :
    (t : Table) (i loc n : ℕ)
    → i + n ≤ length t
    → length t ≡ 128
    → memory_update_table t i loc n ≡ done (fill t i n (record { loc = loc; size = n }))
unfolding memory_update_table
memory_update_table-eq-fill t i loc n b l =
    let e : (i + n) % 2 ^ 8 - i ≡ n = omega arith in
    rw e (update_from-eq-fill t i n (record { loc = loc; size = n }) b)
