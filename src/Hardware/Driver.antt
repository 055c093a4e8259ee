-- ===== src/Hardware/Driver.antt =====
-- hardware/driver.c: the list of drivers, and memsrch of memory/memory.c that finds them in the
-- kernel's image. `mem` is the memory by bytes.
pub mod Calls
use vireo_kernel.Prelude.{
  ℕ, zero, suc, ◌+◌, ◌-◌, ◌*◌, ◌/◌, ◌%◌, ◌^◌, Bool, not, ◌&&◌, if◌then◌else◌, ltb, leb, ◌==◌, u8,
  u32, ◌<<<◌, bit_or, Run, done, stop, fault, ◌>>=◌, ◌>>◌, dbg_assert, load, store, get_or, List,
  [], ◌∷◌, ◌++◌, length,
}
use vireo_kernel.Memory.{memory_malloc_memstrt}
use vireo_kernel.Hardware.Pci.{pci_get_info}

abbrev pub memory_kernelstrt : ℕ
memory_kernelstrt = 0x100000

abbrev pub driver_max_supported : ℕ
driver_max_supported = 64

pub record DriverEntry : Type 0 where
  pub device : ℕ
  pub type : ℕ
  pub driver : ℕ

-- `drv_list` and `cur_devices`
pub record Drivers : Type 0 where
  pub drv_list : List DriverEntry
  pub cur_devices : ℕ

-- The loop of `memsrch` at byte `i`, with `j` bytes matched: the index it ends at. `beyond` is the
-- byte behind the pattern, which the last comparison reads.
unfoldable pub memsrch_from : (ℕ → ℕ) → List ℕ → ℕ → ℕ → ℕ → ℕ → ℕ → ℕ → ℕ
memsrch_from mem pattern beyond at start zero i j = i
memsrch_from mem pattern beyond at start (suc left) i j =
    let next = memsrch_from mem pattern beyond at start left (i + 1) in
    let same = get_or pattern j beyond == mem (start + i) in
    if start + i == at
    then next j
    else if same && ltb j (length pattern)
    then next (j + 1)
    else if not same && ltb j (length pattern)
    then next 0
    else i

-- `at` is the address of the pattern itself, which is passed over; 0 is NULL.
unfoldable pub memsrch : (ℕ → ℕ) → List ℕ → ℕ → ℕ → ℕ → ℕ → ℕ
memsrch mem pattern beyond at start end =
    let i = memsrch_from mem pattern beyond at start (end - start) 0 0 in
    if start + i == end then 0 else u32 (start + i + 2 ^ 32 - length pattern)

-- `struct DRIVER_SEARCH`: the two signatures and the type, as bytes.
abbrev pub bytes_of : ℕ → List ℕ
bytes_of w = w % 256 ∷ w / 2 ^ 8 % 256 ∷ w / 2 ^ 16 % 256 ∷ w / 2 ^ 24 % 256 ∷ []

unfoldable pub driver_search : ℕ → List ℕ
driver_search type =
    bytes_of 0xb14d05 ++ (b'V' ∷ b'I' ∷ b'R' ∷ b'E' ∷ b'O' ∷ b'D' ∷ b'R' ∷ b'V' ∷ bytes_of type)

-- The word behind the structure: the address of the driver's handler.
abbrev pub handler_at : (ℕ → ℕ) → ℕ → ℕ
handler_at mem loc =
    let a = loc + 16 in mem a + mem (a + 1) * 2 ^ 8 + mem (a + 2) * 2 ^ 16 + mem (a + 3) * 2 ^ 24

-- The index of the first entry of a type, or 64.
unfoldable pub index_of : List DriverEntry → ℕ → ℕ → ℕ → Run ℕ
index_of drv_list type zero i = done i
index_of drv_list type (suc left) i = do
  e ← load drv_list i
  let rest = index_of drv_list type left (i + 1)
  if e.type == type then done i else rest

-- The search for a driver's structure in the kernel's image, from memory_getKernelStart to
-- memory_getMallocStart: `at` is where the structure that is searched for stands, `beyond` the byte
-- behind it.
abbrev pub driver_loc : (ℕ → ℕ) → ℕ → ℕ → ℕ → ℕ
driver_loc mem beyond at type =
    memsrch mem (driver_search type) beyond at memory_kernelstrt memory_malloc_memstrt

module _ (mem : ℕ → ℕ) (beyond at : ℕ) where
  unfoldable pub driver_add_internal_driver : ℕ → Drivers → Run Drivers
  driver_add_internal_driver identifier d = do
    let loc = driver_loc mem beyond at identifier
    dbg_assert (not (loc == 0))
    dbg_assert (not (d.cur_devices == driver_max_supported))
    list ←
        store d.drv_list d.cur_devices
          (record { device = 0; type = identifier; driver = handler_at mem loc })
    done (record { drv_list = list; cur_devices = u8 (d.cur_devices + 1) })

  -- One round of `driver_search_pciAll` for a device that is there.
  unfoldable pub search_device : (ℕ → ℕ) → ℕ → Drivers → Run Drivers
  search_device config device d =
      let driver_type = bit_or (pci_get_info config device) (0x01 <<< 24) in
      let loc = driver_loc mem beyond at driver_type in
      if loc == 0
      then done d
      else (store d.drv_list d.cur_devices
            (record { device = device; type = driver_type; driver = handler_at mem loc })
          >>= λ list. done (record { drv_list = list; cur_devices = u8 (d.cur_devices + 1) }))

  -- The loop of `driver_search_pciAll`: it ends at the first word 0 of the device list.
  unfoldable pub search_from : (ℕ → ℕ) → List ℕ → ℕ → ℕ → Drivers → Run Drivers
  search_from config devicelist zero i d = done d
  search_from config devicelist (suc left) i d = do
    device ← load devicelist i
    let rest = search_from config devicelist left (i + 1)
    if device == 0 then done d else (search_device config device d >>= λ d'. rest d')

  unfoldable pub driver_search_pci_all : (ℕ → ℕ) → List ℕ → Drivers → Run Drivers
  driver_search_pci_all config devicelist d = search_from config devicelist 255 0 d

-- `call` stands for EXEC_CALL_FUNC.
unfoldable pub driver_exec :
    {W : Type 0} → (ℕ → List ℕ → W → Run (List ℕ × W)) → Drivers → ℕ → List ℕ → W → Run (List ℕ × W)
driver_exec call d type packet w = do
  i ← index_of d.drv_list type driver_max_supported 0
  dbg_assert (not (leb driver_max_supported i))
  e ← load d.drv_list i
  call e.driver packet w
