-- ===== src/Boot.antt =====
-- boot/loader.c: what the boot loader has left, as multiboot.h describes it.
use vireo_kernel.Prelude.{ℕ, ◌+◌, not, if◌then◌else◌, ◌==◌, u32, bit_and}
use vireo_kernel.Util.{exit_code_global_success}

abbrev pub loader_magicnumber_multiboot : ℕ
loader_magicnumber_multiboot = 0x2badb002

abbrev pub exit_code_global_not_implemented : ℕ
exit_code_global_not_implemented = 0x02

abbrev pub loader_type_unknown : ℕ
loader_type_unknown = 0

abbrev pub loader_type_multiboot : ℕ
loader_type_multiboot = 1

-- The members of `multiboot_info_t` that the kernel looks at.
pub record MultibootInfo : Type 0 where
  pub flags : ℕ
  pub mem_lower : ℕ
  pub mem_upper : ℕ
  pub mmap_length : ℕ
  pub mmap_addr : ℕ

-- LOADER_INFO
pub record LoaderInfo : Type 0 where
  pub mmap : ℕ
  pub mmap_length : ℕ
  pub total_memory : ℕ

-- The static variables.
pub record Loader : Type 0 where
  pub loader_type : ℕ
  pub loader_info : LoaderInfo

unfoldable pub loader_multiboot_convert_info_struct : MultibootInfo → LoaderInfo
loader_multiboot_convert_info_struct info =
    let has_map = not (bit_and info.flags 0x40 == 0) in
    record {
      mmap = if has_map then info.mmap_addr else 0;
      mmap_length = if has_map then info.mmap_length else 0;
      total_memory = u32 (info.mem_upper + info.mem_lower);
    }

unfoldable pub loader_multiboot_compliant : MultibootInfo → Loader → Loader
loader_multiboot_compliant info loader = record {
  loader_type = loader_type_multiboot;
  loader_info = loader_multiboot_convert_info_struct info;
}

-- The exit code and the variables; `magicnumber` is what the loader has left in its register.
unfoldable pub loader_detect : ℕ → MultibootInfo → Loader → ℕ × Loader
loader_detect magicnumber info loader =
    if magicnumber == loader_magicnumber_multiboot
    then (exit_code_global_success, loader_multiboot_compliant info loader)
    else (exit_code_global_not_implemented, loader)
