-- ===== src/Cpu/Tests.antt =====
-- The tables that the kernel sets up, and the theorems at concrete entries.
use vireo_kernel.Prelude.{◌*◌, ◌/◌, ◌%◌, ◌^◌, ◌≡◌, refl, arith, true, false, ◌∷◌, [], map}
use vireo_kernel.Cpu.Gdt.{gdt_setup, gdt_entry, gdt_entry_fields, base_of, limit_of}

-- The access bytes of `init_env`: null, then code and data in ring 0 and in ring 3.
access_bytes :
    map
      (λ e. e.access)
      (gdt_setup
        (record { data_is_writable = true; code_is_readable = true })
        (record { align4k = true; use16 = false }))
    ≡ 0 ∷ 0x9a ∷ 0x92 ∷ 0xfa ∷ 0xf2 ∷ []
unfolding gdt_setup
access_bytes = refl

gdt_entry_fields_example :
    let e = gdt_entry 0x12345678 0xffffffff 0x9a (12 * 16) in
    (base_of e ≡ 0x12345678)
    × (limit_of e ≡ 0xffffffff % 2 ^ 20)
    × (e.access ≡ 0x9a)
    × (e.flags_plus_limit / 16 ≡ 12)
gdt_entry_fields_example =
    gdt_entry_fields 0x12345678 0xffffffff 0x9a 12 (omega arith) (omega arith)
