-- ===== src/Paging/Tests.antt =====
-- Runs of the page allocator and of the tables, and the theorems at concrete states.
use vireo_kernel.Prelude.{ℕ, ◌+◌, ◌*◌, ◌<◌, ◌≡◌, ◌⊎◌, refl, arith, List, [], ◌∷◌, done, stop}
use vireo_kernel.Paging.{
  ShadowAllocated, PageReq, Paging, paging_find_free, find_free_from, paging_vptr_to_pptr,
  paging_map, paging_convert_ptr_to_entry, valloc, vfree, mark_pages, set_pids,
}
use vireo_kernel.Paging.FindFree.{pid_of, Answer, paging_find_free-Answer}
use vireo_kernel.Paging.Entry.{entry_of_page, paging_map-translate}
use vireo_kernel.Paging.Alloc.{Served, Starved, pages_of, valloc_lem, valloc-vfree}
use vireo_kernel.Paging.Create.{create_loop}
use vireo_kernel.Paging.Create.Tables.{create_loop_lem}

abbrev kernel_page : ShadowAllocated
kernel_page = record { pid = 0; npages = 1 }

abbrev unused_page : ShadowAllocated
unused_page = record { pid = 0xff; npages = 0xffff }

abbrev shadow : List ShadowAllocated
shadow = kernel_page ∷ unused_page ∷ unused_page ∷ unused_page ∷ []

abbrev req : PageReq
req = record { pid = 7; attr = 1; size = 8000 }

-- The directory stands at 0x1000 and its first entry points to a table at 0x2000.
abbrev small_paging : Paging
small_paging = record {
  mem = λ a. 0x2003;
  page_dir = 0x1000;
  g_max_pages = 4;
  shadow_t = shadow;
  effects = [];
}

abbrev kernel_attr : PageReq
kernel_attr = record { pid = 0; attr = 3; size = 4096 }

-- Three unused pages: a request for two is served, one for three stops the kernel.
find_free-shadow : (paging_find_free shadow 2 ≡ 0x1000) × (paging_find_free shadow 3 ≡ 0)
unfolding paging_find_free find_free_from
find_free-shadow = (refl, refl)

abbrev big_req : PageReq
big_req = record { pid = 7; attr = 1; size = 12000 }

valloc_stops : valloc small_paging big_req ≡ stop
unfolding valloc paging_find_free find_free_from
valloc_stops = refl

valloc_returns : (r : ℕ × Paging) × (valloc small_paging req ≡ done r) × (r.0 ≡ 0x1000)
unfolding valloc paging_find_free find_free_from mark_pages set_pids
valloc_returns = (_, refl, refl)

paging_find_free-Answer_example : Answer 2 shadow (paging_find_free shadow 2)
paging_find_free-Answer_example = paging_find_free-Answer shadow 2 (omega arith)

entry_of_page_example : paging_convert_ptr_to_entry (5 * 4096) kernel_attr ≡ 5 * 4096 + 7
entry_of_page_example = entry_of_page 5 kernel_attr (omega arith) (omega arith)

paging_map-translate_example :
    paging_vptr_to_pptr (paging_map small_paging (9 * 4096) 0x3000 req) 0x3123 ≡ 9 * 4096 + 0x123
paging_map-translate_example =
    paging_map-translate small_paging 9 0x3000 0x3123 req (omega arith) (omega arith) (omega arith)
      refl (omega arith)

valloc_lem_example :
    ((r : ℕ × Paging) × (valloc small_paging req ≡ done r) × Served small_paging req r)
    ⊎ ((valloc small_paging req ≡ done (0, small_paging))
        × ((pages_of req ≡ 0) ⊎ (4 < pages_of req)))
    ⊎ ((valloc small_paging req ≡ stop) × Starved small_paging req)
valloc_lem_example = valloc_lem small_paging req (omega arith) (omega arith)

valloc-vfree_example :
    (p' : Paging) × (vfree valloc_returns.0.1 valloc_returns.0.0 ≡ done p')
    × ((j : ℕ) → pid_of p'.shadow_t j ≡ pid_of shadow j)
valloc-vfree_example =
    valloc-vfree small_paging req (omega arith) (omega arith) (omega arith) valloc_returns.1
      (omega (arith, valloc_returns.2))

create_loop_lem_example :
    let mem = (create_loop small_paging.mem 0x210000 0 2 1).0 in
    (mem (0x210000 + 4 * 1) ≡ 0x210000 + 4096 * 2 + 3)
    × (mem (0x210000 + 4096 * 2 + 4 * 5) ≡ (1023 * 1 + 5) * 4096 + 3)
create_loop_lem_example =
    create_loop_lem small_paging.mem 0x210000 2 1 5 (omega arith) refl (omega arith) (omega arith)
      (omega arith)
