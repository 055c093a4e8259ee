-- ===== src/Memory/Tests.antt =====
-- Runs of `kmalloc` and `kfree`, and the theorems at concrete tables.
use vireo_kernel.Prelude.{ℕ, ◌+◌, ◌*◌, ◌≤◌, ◌≡◌, ◌⊎◌, refl, arith, ap, done, get_or-replicate}
use vireo_kernel.Memory.{Table, free_entry, empty_table, search, kmalloc, kfree}
use vireo_kernel.Memory.Update.{fill}
use vireo_kernel.Memory.Layout.{
  address, block, Allocation, Layout, empty_table-Layout, fill-Layout, fill-Allocation,
}
use vireo_kernel.Memory.Alloc.{Granted, Refused, kmalloc-first_fit, kmalloc-Layout}
use vireo_kernel.Memory.Free.{kfree-Layout, kfree-eq-fill, kmalloc-kfree}
use vireo_kernel.Memory.Fresh.{kmalloc-fresh, kmalloc_count_wraps}

-- Two blocks are in use, at the start.
abbrev busy : Table
busy = fill empty_table 0 2 (block 0 2)

busy-Layout : Layout busy
busy-Layout =
    fill-Layout 0 2 empty_table-Layout (omega arith) (omega arith)
      λ j p q. ap (λ r. r.loc) (get_or-replicate 128 free_entry free_entry j (omega arith))

busy-Allocation : Allocation busy 0 2
busy-Allocation = fill-Allocation empty_table 0 2 refl (omega arith) (omega arith)

kmalloc-busy : kmalloc busy 600 ≡ done (0x200400, fill busy 2 2 (block 2 2))
unfolding kmalloc search
kmalloc-busy = refl

kmalloc_too_much : kmalloc busy 65536 ≡ done (0, busy)
unfolding kmalloc search
kmalloc_too_much = refl

kmalloc-first_fit_example :
    (r : ℕ × Table) × (kmalloc busy 600 ≡ done r) × (Granted busy 2 r ⊎ Refused busy 2 r)
kmalloc-first_fit_example = kmalloc-first_fit busy 600 busy-Layout (omega arith) (omega arith)

kmalloc-Layout_example : Layout (fill busy 2 2 (block 2 2))
kmalloc-Layout_example =
    kmalloc-Layout busy 600 busy-Layout (omega arith) (omega arith) kmalloc-busy

kfree-Layout_example : Layout (fill busy 0 2 free_entry)
kfree-Layout_example =
    kfree-Layout (fill busy 0 2 free_entry) busy-Layout busy-Allocation
      (kfree-eq-fill busy-Layout busy-Allocation)

kfree-eq-fill_example : kfree busy 0x200000 ≡ done (fill busy 0 2 free_entry)
kfree-eq-fill_example = kfree-eq-fill busy-Layout busy-Allocation

kmalloc-kfree_example : kfree (fill busy 2 2 (block 2 2)) 0x200400 ≡ done busy
kmalloc-kfree_example =
    kmalloc-kfree busy 600 busy-Layout (omega arith) (omega arith) kmalloc-busy (omega arith)

kmalloc-fresh_example :
    (s : ℕ) × (0x200400 ≡ address s)
    × (600 ≤ 512 * 2)
    × Allocation (fill busy 2 2 (block 2 2)) s 2
    × ((s' n' : ℕ)
        → Allocation busy s' n'
        → Allocation (fill busy 2 2 (block 2 2)) s' n' × ((s' + n' ≤ s) ⊎ (s + 2 ≤ s')))
kmalloc-fresh_example =
    kmalloc-fresh busy 600 busy-Layout (omega arith) (omega arith) kmalloc-busy (omega arith)

kmalloc_count_wraps_example : kmalloc busy 131072 ≡ done (0x200000, busy)
kmalloc_count_wraps_example =
    kmalloc_count_wraps busy 131072 busy-Layout busy-Allocation (omega arith) refl
