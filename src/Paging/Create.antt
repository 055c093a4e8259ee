-- ===== src/Paging/Create.antt =====
-- memory/paging.c: how the tables are laid out when the kernel starts.
pub mod Tables
use vireo_kernel.Prelude.{
  ℕ, zero, suc, ◌+◌, ◌-◌, ◌*◌, ◌/◌, List, [], if◌then◌else◌, ◌==◌, replicate, u32, ◌<<<◌, ◌>>>◌,
  how_many, bit_or, Run, done, fault, load, store, ◌>>=◌,
}
use vireo_kernel.Memory.{Table, kmalloc, memory_get_malloc_end}
use vireo_kernel.Paging.{
  ShadowAllocated, PageReq, Words, Paging, pid_kernel, pid_resv, paging_page_size,
  paging_table_size, poke, paging_map,
}

pub data TableType : Type 0 where
  dir tab : TableType

-- `MEMORY_VIRTUAL_TABLES` has the value of `memory_get_malloc_end()`. The amount of memory is
-- left in the first word.
pub memory_paging_tables_loc : Words → ℕ → ℕ × Words
memory_paging_tables_loc mem available =
    (memory_get_malloc_end, poke mem memory_get_malloc_end available)

pub fill_dir : Words → ℕ → ℕ → ℕ → Words
fill_dir mem table zero i = mem
fill_dir mem table (suc left) i = fill_dir (poke mem (table + 4 * i) 2) table left (i + 1)

pub fill_tab : Words → ℕ → ℕ → ℕ → ℕ → Words
fill_tab mem table previous_end zero i = mem
fill_tab mem table previous_end (suc left) i =
    fill_tab (poke mem (table + 4 * i) (bit_or (u32 (previous_end + i * 0x1000)) 3)) table
      previous_end left (i + 1)

-- The static `previous_end` goes in and out.
pub paging_prepare_table : Words → ℕ → TableType → ℕ → Words × ℕ
unfolding fill_dir fill_tab
paging_prepare_table mem table dir previous_end = (fill_dir mem table 1024 0, previous_end)
paging_prepare_table mem table tab previous_end =
    let mem' = fill_tab mem table previous_end 1024 0 in (mem', mem' (table + 4 * 1023))

-- The loop over the page tables, at table `i`.
pub create_loop : Words → ℕ → ℕ → ℕ → ℕ → Words × ℕ
create_loop mem page_dir previous_end zero i = (mem, previous_end)
create_loop mem page_dir previous_end (suc left) i =
    let table_loc = u32 (i * 0x1000 + page_dir) in
    let mem' = poke mem (page_dir + 4 * (i - 1)) (bit_or table_loc 3) in
    let r = paging_prepare_table mem' table_loc tab previous_end in
    create_loop r.0 page_dir r.1 left (i + 1)

-- The end of the tables, the globals, and the table of `kmalloc`. Filling the shadow map through
-- a NULL pointer is an access outside every object.
pub paging_create_tables : Words → Table → ℕ → Run (ℕ × Paging × Table)
unfolding memory_paging_tables_loc
paging_create_tables mem heap available =
    let (page_dir, mem') = memory_paging_tables_loc mem available in
    let available_mem = u32 (mem' page_dir * 1000) in
    let g_max_pages = available_mem / paging_page_size in
    let page_tables = how_many g_max_pages paging_table_size in
    let amount_mem = u32 ((paging_table_size + page_tables * paging_table_size) * 4) in
    let prepared = paging_prepare_table mem' page_dir dir 0 in
    let created = create_loop prepared.0 page_dir prepared.1 page_tables 1 in
    let shadow_len = available_mem / paging_page_size in
    do
      (ptr, heap') ← kmalloc heap (shadow_len * 3)
      if ptr == 0
          then fault
          else done (
            u32 (page_dir + amount_mem),
            record {
              mem = created.0;
              page_dir = page_dir;
              g_max_pages = g_max_pages;
              shadow_t = replicate shadow_len (record { pid = pid_resv; npages = 0xffff });
              effects = [];
            },
            heap',
          )

abbrev pub kernel_req : PageReq
kernel_req = record { pid = pid_kernel; attr = 3; size = paging_page_size }

-- The loop of `paging_map_kernelspace` at page `i`.
pub map_kernel_pages : Paging → ℕ → ℕ → Run Paging
map_kernel_pages p zero i = done p
map_kernel_pages p (suc left) i =
    let p' = paging_map p (u32 (i <<< 12)) (u32 (i <<< 12)) kernel_req in
    do
      s ← load p'.shadow_t i
      sh ← store p'.shadow_t i (record s { pid = pid_kernel })
      map_kernel_pages (record p' { shadow_t = sh }) left (i + 1)

pub paging_map_kernelspace : Paging → ℕ → Run Paging
unfolding map_kernel_pages
paging_map_kernelspace p end_of_kernel_space = map_kernel_pages p (end_of_kernel_space >>> 12) 0

-- Switching paging on is the processor's.
pub paging_init : Words → Table → ℕ → Run (Paging × Table)
unfolding paging_create_tables paging_map_kernelspace
paging_init mem heap available = do
  (kernel_space_end, p, heap') ← paging_create_tables mem heap available
  p' ← paging_map_kernelspace p kernel_space_end
  done (p', heap')
