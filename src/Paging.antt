-- ===== src/Paging.antt =====
-- memory/paging.c: the page directory and tables, and the shadow map behind `valloc` and `vfree`.
-- `mem` is the physical memory by 32-bit words: its argument is the byte address of a word.
pub mod Create
pub mod FindFree
pub mod Entry
pub mod Marks
pub mod Alloc
mod Tests
use vireo_kernel.Prelude.{
  ℕ, zero, suc, ◌+◌, ◌-◌, ◌*◌, ◌/◌, ◌%◌, ◌<◌, Bool, not, ◌&&◌, ◌||◌, List, [], ◌∷◌, if◌then◌else◌,
  ltb, ◌==◌, replicate, u8, u16, u32, ◌<<<◌, ◌>>>◌, how_many, bit_and, bit_or, Run, done, fault,
  load, store, dbg_assert, ◌>>=◌, ◌>>◌,
}
use vireo_kernel.Memory.{Table, kmalloc, memory_get_malloc_end}

-- `shadow_allocated`
pub record ShadowAllocated : Type 0 where
  pub pid : ℕ
  pub npages : ℕ

-- `PAGE_REQ`
pub record PageReq : Type 0 where
  pub pid : ℕ
  pub attr : ℕ
  pub size : ℕ

-- What the code does to the processor and to memory that the tables do not hold.
pub data Effect : Type 0 where
  invlpg : ℕ → Effect
  memset : ℕ → ℕ → ℕ → Effect

abbrev pub Words : Type 0
Words = ℕ → ℕ

-- The globals of paging.c; `effects` holds the latest effect first.
pub record Paging : Type 0 where
  pub mem : Words
  pub page_dir : ℕ
  pub g_max_pages : ℕ
  pub shadow_t : List ShadowAllocated
  pub effects : List Effect

abbrev pub pid_kernel : ℕ
pid_kernel = 0

abbrev pub pid_resv : ℕ
pid_resv = 0xff

abbrev pub paging_addr_msk : ℕ
paging_addr_msk = 0xfffff000

abbrev pub paging_page_size : ℕ
paging_page_size = 4096

abbrev pub paging_table_size : ℕ
paging_table_size = 1024

-- `table[i] = v` where `a` is the address of the word
abbrev pub poke : Words → ℕ → ℕ → Words
poke mem a v b = if a == b then v else mem b

-- The mask is `~((PAGE_REQ_ATTR_SUPERVISOR | PAGE_REQ_ATTR_READ_ONLY) << 1)`, in which the macros
-- stand for `1U << 1` and `!1U << 0`.
unfoldable pub paging_convert_ptr_to_entry : ℕ → PageReq → ℕ
paging_convert_ptr_to_entry ptr req =
    bit_or (bit_or (bit_and ptr 0xfffffffb) (u32 (req.attr <<< 1))) 1

-- The table that a directory entry points to.
abbrev pub table_of : Words → ℕ → ℕ → ℕ
table_of mem page_dir pdindex = bit_and (mem (page_dir + 4 * pdindex)) paging_addr_msk

pub paging_vptr_to_pptr : Paging → ℕ → ℕ
paging_vptr_to_pptr p vptr =
    let pdindex = vptr >>> 22 in
    let ptindex = bit_and (vptr >>> 12) 0x3ff in
    let pde = p.mem (p.page_dir + 4 * pdindex) in
    let pte = p.mem (table_of p.mem p.page_dir pdindex + 4 * ptindex) in
    if not (bit_and pde 1 == 0) && not (bit_and pte 1 == 0)
    then u32 (bit_and pte paging_addr_msk + bit_and vptr 0xfff)
    else vptr

pub paging_map : Paging → ℕ → ℕ → PageReq → Paging
unfolding paging_convert_ptr_to_entry
paging_map p pptr vptr req =
    let pdindex = vptr >>> 22 in
    let ptindex = bit_and (vptr >>> 12) 0x3ff in
    let pt = table_of p.mem p.page_dir pdindex in
    record p {
      mem = poke p.mem (pt + 4 * ptindex) (paging_convert_ptr_to_entry pptr req);
      effects = invlpg pptr ∷ p.effects;
    }

-- The loop of `paging_find_free` at entry `i`, over the rest of the shadow map.
pub find_free_from : ℕ → List ShadowAllocated → ℕ → ℕ → ℕ → ℕ
find_free_from npages [] i index cnt = 0
find_free_from npages (s ∷ rest) i index cnt =
    let skip = find_free_from npages rest (i + 1) index 0 in
    let index' = if cnt == 0 then i else index in
    let next = find_free_from npages rest (i + 1) index' (cnt + 1) in
    if not (s.pid == pid_resv) then skip else if cnt == npages then u32 (index' <<< 12) else next

-- `index` is not initialised in the source, and is set before it is read.
pub paging_find_free : List ShadowAllocated → ℕ → ℕ
paging_find_free shadow_t npages = find_free_from npages shadow_t 0 0 0

-- `for(i = 0; i < n; ++i) shadow_t[page_id + i].pid = pid`, from entry `i` on.
pub set_pids : List ShadowAllocated → ℕ → ℕ → ℕ → Run (List ShadowAllocated)
set_pids sh i zero pid = done sh
set_pids sh i (suc n) pid = do
  s ← load sh i
  sh' ← store sh i (record s { pid = pid })
  set_pids sh' (i + 1) n pid

-- `valloc` writes the table entry of the first page only.
pub write_entry : Paging → ℕ → PageReq → Paging
unfolding paging_convert_ptr_to_entry
write_entry p page_id req =
    let pt = table_of p.mem p.page_dir (page_id >>> 10) in
    let a = pt + 4 * (page_id % paging_table_size) in
    let e = paging_convert_ptr_to_entry (bit_and (p.mem a) paging_addr_msk) req in
    record p { mem = poke p.mem a e; effects = invlpg e ∷ p.effects }

-- The shadow map at the end of `valloc`: the owner of all the pages, the count of the first.
pub mark_pages : List ShadowAllocated → ℕ → ℕ → ℕ → Run (List ShadowAllocated)
unfolding set_pids
mark_pages sh page_id npages pid = do
  sh' ← set_pids sh page_id npages pid
  s ← load sh' page_id
  store sh' page_id (record s { npages = u16 npages })

pub valloc : Paging → PageReq → Run (ℕ × Paging)
valloc p req =
    let npages = how_many req.size paging_page_size in
    let ptr = paging_find_free p.shadow_t npages in
    let page_id = ptr >>> 12 in
    do
      dbg_assert (not (p.page_dir == 0))
      if ltb p.g_max_pages npages || npages == 0 then done (0, p) else do
        dbg_assert (not (ptr == 0))
        sh ← mark_pages p.shadow_t page_id npages req.pid
        done (ptr, record (write_entry p page_id req) { shadow_t = sh })

-- The loop of `vfree` reads `shadow_t[page_id].npages` in each round; it only writes `pid`s.
pub vfree : Paging → ℕ → Run Paging
unfolding set_pids
vfree p ptr =
    let page_id = ptr / paging_page_size in
    let pt = table_of p.mem p.page_dir (page_id / paging_table_size) in
    let a = pt + 4 * (page_id % paging_table_size) in
    do
      s ← load p.shadow_t page_id
      sh ← set_pids p.shadow_t page_id s.npages pid_resv
      done (record p {
        mem = poke p.mem a (bit_and (p.mem a) 0xfffffffb);
        shadow_t = sh;
        effects = memset ptr (paging_page_size * s.npages) 0 ∷ p.effects;
      })
