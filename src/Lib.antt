-- ===== src/Lib.antt =====
-- The Vireo-II kernel (core/): a verification library of its memory management, its strings, its
-- drivers and the tables that they stand on.
--
-- The kernel starts with the boot loader's information, sets up the descriptor tables, the heap and
-- paging, and looks for devices; drivers take packets of five words, and the disk layer turns the
-- names of drives and partitions into such packets. The modules follow this division:
--   * Prelude: numbers, lists and the way code ends. `Run` is a value, an endless loop (`stop`, as
--     dbg_assert has it) or an access outside the object it is meant for (`fault`).
--   * Memory: core/memory/memory.c. The table memory_t is a list of 128 records; `kmalloc` and
--     `kfree` take it and return it, with the 8-bit indices and counts of the source. Memory/Start
--     is the start of the heap.
--   * Paging: core/memory/paging.c. The directory and the tables are words in a memory, the shadow
--     map is a list; `valloc`, `vfree` and `paging_map` change both. TLB invalidations and the
--     clearing of pages are recorded as effects.
--   * Util: core/util/util.c. Strings are lists of bytes with their terminator; numbers are printed
--     into the pool of 32 bytes. A pointer into a string is the rest of it; Util/Tokens has strtok,
--     which takes the rest of the last call and gives back the new one, and Util/Sleep has sleep,
--     over the reads of the timer.
--   * Boot: core/boot/loader.c, what is kept of the multiboot information.
--   * Cpu: core/cpu/gdt.c and core/cpu/interrupts/IDT.c. Entries are records with the fields of the
--     packed structures.
--   * Hardware: core/io/io.c, core/hardware/pic.c, timer.c, pci.c and driver.c. `Io` passes on the ports:
--     a function that answers the n-th read, the number of reads, and the trace of all accesses.
--     The PCI bus is a function from configuration addresses to words.
--   * Screen: core/screen/screen_basic.c. The state is SCREENDATA, the pool, the ports and 32 KiB
--     of video memory. Conway: core/misc/conway.c, the game of life on this screen.
--   * Dsk: core/dsk/diskio.c, mbr.c and cd.c, over the answers of the drivers.
--   * Drv/Ide: core/drv/IDE/IDEController.c, as programs on the ports that call the PCI and interrupt
--     parts.
--   * Drv/Fat and Drv/Iso: core/drv/FS/fat.c and iso9660.c. Both stand on Drv/Machine, a record of
--     what they call: reads and writes of sectors, what the blocks of kmalloc and the pages of
--     valloc hold at first. A buffer is a list of bytes or words, which is changed and passed on.
--   * Kernel: core/kernel/info.c, core/kernel/panic.c and core/dbg/debug.c on the screen; Kernel/Isr
--     has core/cpu/interrupts/isr.c, which stops in `panic` or counts ticks and tells the PIC.
--   * Exec: core/exec/task.c, elf.c and flat.c, the process numbers, the header checks, the segments
--     and the start of a program.
-- The clients call a component through the functions that the source has: paging takes blocks from
-- the heap's layout, the screen prints through `hexstr` and `intstr`, the IDE driver reads the base
-- addresses through `pci_get_bar`, the disk layer reaches the IDE handler through the driver list
-- (Drv/Ide/Dispatch), and the file systems cut paths with `strtok` and convert names of drives with
-- `convert_drive_id`.
--
-- Numbers are natural numbers with the wrap-around of each C type written out (u8, u16, u32).
-- Loops over a fixed range recurse on the number of rounds, which is exact. `print_value_from` has
-- as many rounds as the text has characters, and each round moves the index on. The loops of the
-- IDE driver that wait for the hardware have a bound, `patience`, after which they stop for
-- ever; the theorems on them have a drive that is ready, and any bound from 1 on. `sleep` has such
-- a bound for the reads of the timer. `read_fat_loop` has one round more
-- than there are places left in its block, and each takes a place. `iso_find_index` has one round for
-- each sector of the path table and one more; a round that does not go on to the next sector ends
-- the search or is repeated for ever. The walk over a path has as many
-- rounds as the path has characters, and each takes at least one off.
--
-- Parameters stand for what is not in the repository's C code: the answers of the hardware, the
-- addresses of assembly stubs, what kmalloc's blocks hold before they are written, the jump into a
-- program. The file system drivers are taken to get the blocks they ask kmalloc for, each with as
-- many bytes as the heap rounds the request up to, and kfree has no effect on a value. Messages on
-- the screen that drivers print are left out of the drivers. Not modelled: core/kernel.c,
-- which calls the parts in order, CPU_init and the assembly code.
pub mod Prelude
pub mod Memory
pub mod Paging
pub mod Util
pub mod Boot
pub mod Conway
pub mod Cpu
pub mod Hardware
pub mod Exec
pub mod Screen
pub mod Dsk
pub mod Drv
pub mod Kernel
