-- ===== src/Memory.antt =====
-- memory/memory.c: the table of 128 blocks of 512 bytes behind `kmalloc` and `kfree`.
pub mod Search
pub mod Update
pub mod Layout
pub mod Alloc
pub mod Free
pub mod Fresh
pub mod Start
mod Tests
use vireo_kernel.Prelude.{
  ℕ, zero, suc, ◌+◌, ◌-◌, ◌*◌, ◌%◌, ◌<◌, ◌≡◌, refl, Bool, ◌&&◌, ◌||◌, List, if◌then◌else◌, ltb, leb,
  ◌==◌, length, get_or, replicate, u8, u32, how_many, Run, done, load, store, ◌>>=◌,
}

-- `MEMORY_TABLE`
pub record MemoryTable : Type 0 where
  pub loc : ℕ
  pub size : ℕ

abbrev pub memory_malloc_memstrt : ℕ
memory_malloc_memstrt = 0x200000

abbrev pub memory_table_length : ℕ
memory_table_length = 128

abbrev pub memory_block_size : ℕ
memory_block_size = 512

abbrev pub Table : Type 0
Table = List MemoryTable

abbrev pub free_entry : MemoryTable
free_entry = record { loc = 0; size = 0 }

-- `memory_t[i]` for an index that is below 128.
abbrev pub entry : Table → ℕ → MemoryTable
entry t i = get_or t i free_entry

-- What `memset` leaves in `memory_t` when `memory_init` is done.
abbrev pub empty_table : Table
empty_table = replicate memory_table_length free_entry

-- The search loop of `kmalloc` with `left` rounds to go: `loc` and `available` as it leaves them.
pub search : ℕ → Table → ℕ → ℕ → ℕ → ℕ × ℕ
search blocks t zero loc available = (loc, available)
search blocks t (suc left) loc available =
    let available' = if (entry t loc).loc == 0 then u8 (available + 1) else 0 in
    let rest = search blocks t left (u8 (loc + 1)) available' in
    if available' == blocks then (loc, available') else rest

-- The loop of `memory_update_table`, `n` entries from index `i` on.
pub update_from : Table → ℕ → ℕ → MemoryTable → Run Table
update_from t i zero e = done t
update_from t i (suc n) e = do t' ← store t i e; update_from t' (i + 1) n e

-- `end` is a `uint8_t`, and the loop does nothing if it is below `index`.
pub memory_update_table : Table → ℕ → ℕ → ℕ → Run Table
unfolding update_from
memory_update_table t index loc blocks =
    update_from t index (u8 (index + blocks) - index) (record { loc = loc; size = blocks })

-- `mallocd_index <= -1`: the index is 0, or `(int8_t) (index - 1)` is negative.
abbrev pub at_start : ℕ → Bool
at_start index = index == 0 || leb 129 index

-- The rest of `kmalloc` when the run from `index` on is chosen: the address and the new table.
pub place : Table → ℕ → ℕ → Run (ℕ × Table)
unfolding memory_update_table
place t index blocks = do
  t' ← if at_start index then memory_update_table t 0 memory_malloc_memstrt blocks else do
    e ← load t (index - 1)
    memory_update_table t index (u32 (e.loc + e.size * memory_block_size)) blocks
  e ← load t' index
  done (e.loc, t')

-- The address returned (0 is NULL) and the new table.
pub kmalloc : Table → ℕ → Run (ℕ × Table)
unfolding place
kmalloc t size =
    let blocks = u8 (how_many size memory_block_size) in
    let (loc, available) = search blocks t memory_table_length 0 0 in
    if leb memory_table_length loc && ltb available blocks
    then done (0, t)
    else place t (u8 (loc + 256 - blocks + 1)) blocks

-- The first index below 128 whose entry has this address, or 128.
pub find_loc : Table → ℕ → ℕ → ℕ → ℕ
find_loc t ptr zero i = i
find_loc t ptr (suc left) i =
    let rest = find_loc t ptr left (u8 (i + 1)) in if (entry t i).loc == ptr then i else rest

pub kfree : Table → ℕ → Run Table
unfolding update_from
kfree t ptr =
    if ptr == 0
    then done t
    else (let i = find_loc t ptr memory_table_length 0 in
        do e ← load t i; update_from t i (u8 (i + e.size) - i) free_entry)

-- `memory_get_malloc_end`
abbrev pub memory_get_malloc_end : ℕ
memory_get_malloc_end = memory_malloc_memstrt + memory_block_size * memory_table_length
