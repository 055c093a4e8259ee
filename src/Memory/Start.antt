-- ===== src/Memory/Start.antt =====
-- memory/memory.c: the start of the heap from what the boot loader says.
use vireo_kernel.Prelude.{
  ℕ, ◌+◌, ◌-◌, ◌^◌, ◌≤◌, ◌<◌, ◌≡◌, ◌≢◌, refl, arith, true, false, if◌then◌else◌, leb, ◌==◌, u32,
  Run, done, stop, dbg_assert, ◌>>=◌, List, [], ◌∷◌,
}
use vireo_kernel.Util.{exit_code_global_success}
use vireo_kernel.Boot.{
  MultibootInfo, Loader, loader_detect, loader_type_unknown, loader_magicnumber_multiboot,
  exit_code_global_not_implemented, loader_multiboot_compliant,
  loader_multiboot_convert_info_struct,
}
use vireo_kernel.Memory.{Table, empty_table, memory_malloc_memstrt}

-- `sizeof(multiboot_info_t)`
abbrev pub multiboot_info_size : ℕ
multiboot_info_size = 120

pub record MemoryMap : Type 0 where
  pub type : ℕ
  pub loc_start : ℕ
  pub loc_end : ℕ

-- The static variables that `memory_init` sets.
pub record MemoryState : Type 0 where
  pub loader_type : ℕ
  pub available_memory : ℕ
  pub end_of_kernel_memory : ℕ
  pub temp_memory_map : List MemoryMap
  pub memory_t : Table

-- `kernel_start` and `stack_top` are addresses of the linker, `info_location` is that of the
-- multiboot information.
unfoldable pub memory_create_temp_mmap : ℕ → ℕ → ℕ → Run (List MemoryMap)
memory_create_temp_mmap kernel_start stack_top info_location =
    dbg_assert (leb stack_top memory_malloc_memstrt) >>= λ _. done (
      record { type = 1; loc_start = u32 (kernel_start + 2 ^ 32 - 0x0c); loc_end = stack_top }
      ∷ record { type = 2; loc_start = info_location; loc_end = multiboot_info_size }
      ∷ [])

-- `kibibytes n` is the product of n and 1.024 cut to a whole number.
unfoldable pub memory_init : (ℕ → ℕ) → ℕ → ℕ → ℕ → Loader → MemoryState → Run (ℕ × MemoryState)
memory_init kibibytes kernel_start stack_top info_location loader s =
    let known = record s { loader_type = loader.loader_type; end_of_kernel_memory = 0 } in
    let start = memory_create_temp_mmap kernel_start stack_top info_location >>= λ map. done (
      exit_code_global_success,
      record known {
        available_memory = u32 (kibibytes loader.loader_info.total_memory);
        temp_memory_map = map;
        memory_t = empty_table;
      },
    ) in
    if loader.loader_type == loader_type_unknown
    then done (exit_code_global_not_implemented, known)
    else start

-- The state that `memory_init` leaves.
abbrev started : ℕ → ℕ → ℕ → ℕ → ℕ → MemoryState → MemoryState
started type available kernel_start stack_top info_location s = record s {
  loader_type = type;
  end_of_kernel_memory = 0;
  available_memory = available;
  temp_memory_map =
      record { type = 1; loc_start = u32 (kernel_start + 2 ^ 32 - 0x0c); loc_end = stack_top }
      ∷ record { type = 2; loc_start = info_location; loc_end = multiboot_info_size }
      ∷ [];
  memory_t = empty_table;
}

memory_init_known :
    (kibibytes : ℕ → ℕ) (kernel_start stack_top info_location : ℕ) (loader : Loader)
    (s : MemoryState)
    → loader.loader_type ≢ loader_type_unknown
    → (stack_top ≤ memory_malloc_memstrt
        → memory_init kibibytes kernel_start stack_top info_location loader s
          ≡ done (
            0,
            started loader.loader_type
                (u32 (kibibytes loader.loader_info.total_memory))
                kernel_start
                stack_top
                info_location
                s,
          ))
      × (memory_malloc_memstrt < stack_top
          → memory_init kibibytes kernel_start stack_top info_location loader s ≡ stop)
unfolding memory_init memory_create_temp_mmap
memory_init_known kibibytes kernel_start stack_top info_location loader s known =
    let type : (loader.loader_type == 0) ≡ false = ground arith in
    (
      λ below. let fits : leb stack_top 0x200000 ≡ true = ground arith in rw (type, fits),
      λ above. let over : leb stack_top 0x200000 ≡ false = ground arith in rw (type, over),
    )

memory_init_unknown :
    (kibibytes : ℕ → ℕ) (kernel_start stack_top info_location : ℕ) (loader : Loader)
    (s : MemoryState)
    → loader.loader_type ≡ loader_type_unknown
    → memory_init kibibytes kernel_start stack_top info_location loader s
      ≡ done
          (exit_code_global_not_implemented, record s { loader_type = 0; end_of_kernel_memory = 0 })
unfolding memory_init
memory_init_unknown kibibytes kernel_start stack_top info_location loader s unknown = rw unknown

loader_detect_multiboot :
    (info : MultibootInfo) (loader : Loader)
    → (loader_detect loader_magicnumber_multiboot info loader).1
      ≡ record { loader_type = 1; loader_info = loader_multiboot_convert_info_struct info }
unfolding loader_detect loader_multiboot_compliant
loader_detect_multiboot info loader = refl

loader_detect_other :
    (magicnumber : ℕ) (info : MultibootInfo) (loader : Loader)
    → magicnumber ≢ loader_magicnumber_multiboot
    → (loader_detect magicnumber info loader).1 ≡ loader
unfolding loader_detect
loader_detect_other magicnumber info loader other =
    let differ : (magicnumber == 0x2badb002) ≡ false = ground arith in rw differ

-- The start of the heap after loader_detect: with a multiboot loader the table is empty and the
-- memory is that of the two ranges together, unless the kernel's stack reaches into the heap, where
-- dbg_assert stops; with another loader nothing is set up.
pub loader_detect-memory_init :
    (kibibytes : ℕ → ℕ) (magicnumber kernel_start stack_top info_location : ℕ)
    (info : MultibootInfo) (loader : Loader) (s : MemoryState)
    → loader.loader_type ≡ loader_type_unknown
    → let booted = (loader_detect magicnumber info loader).1 in
      let run : Run (ℕ × MemoryState) =
        memory_init kibibytes kernel_start stack_top info_location booted s in
      (magicnumber ≡ loader_magicnumber_multiboot
        → stack_top ≤ memory_malloc_memstrt
        → (s' : MemoryState) × (run ≡ done (0, s'))
          × (s'.memory_t ≡ empty_table)
          × (s'.available_memory ≡ u32 (kibibytes (u32 (info.mem_upper + info.mem_lower)))))
      × (magicnumber ≡ loader_magicnumber_multiboot
          → memory_malloc_memstrt < stack_top
          → run ≡ stop)
      × (magicnumber ≢ loader_magicnumber_multiboot
          → (s' : MemoryState) × (run ≡ done (exit_code_global_not_implemented, s'))
            × (s'.memory_t ≡ s.memory_t))
unfolding loader_multiboot_convert_info_struct
loader_detect-memory_init kibibytes magicnumber kernel_start stack_top info_location info loader s
      unknown =
    let booted : Loader = record {
      loader_type = 1;
      loader_info = loader_multiboot_convert_info_struct info;
    } in
    let known =
      memory_init_known kibibytes kernel_start stack_top info_location booted s (ground arith) in
    (
      λ same below. (
        started 1 (u32 (kibibytes (u32 (info.mem_upper + info.mem_lower)))) kernel_start stack_top
            info_location s,
        rw (same, loader_detect_multiboot info loader) (known.0 below),
        refl,
        refl,
      ),
      λ same above. rw (same, loader_detect_multiboot info loader) (known.1 above),
      λ other. (
        record s { loader_type = 0; end_of_kernel_memory = 0 },
        rw (loader_detect_other magicnumber info loader other)
            (memory_init_unknown kibibytes kernel_start stack_top info_location loader s unknown),
        refl,
      ),
    )
