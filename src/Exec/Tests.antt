-- ===== src/Exec/Tests.antt =====
-- Processes and headers at concrete inputs.
use vireo_kernel.Prelude.{◌≡◌, refl, [], done}
use vireo_kernel.Exec.Elf.{ElfHeader, elf_check_errors, with_ident, elf_check_errors_lem}

abbrev program : ElfHeader
program = record { elf_ident = []; type = 2; machine = 3; entry = 0; phoff = 52; phnum = 1 }

-- The bytes 7f 45 00 are enough, and any version is.
elf_check_errors_lem_example : elf_check_errors (with_ident program 0x7f b'E' 0 0 1 1 []) ≡ done 0
elf_check_errors_lem_example =
    (elf_check_errors_lem program 0x7f b'E' 0 0 1 1 []).1 (refl, refl, refl, refl, refl, refl)
