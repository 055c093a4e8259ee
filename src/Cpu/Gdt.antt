-- ===== src/Cpu/Gdt.antt =====
-- cpu/gdt.c: the global descriptor table.
use vireo_kernel.Prelude.{
  ℕ, ◌+◌, ◌*◌, ◌/◌, ◌%◌, ◌^◌, ◌<◌, ◌≡◌, refl, arith, Bool, true, false, List, [], ◌∷◌,
  if◌then◌else◌, u8, u16, ◌<<<◌, ◌>>>◌, bit_and, bit_or,
}
use vireo_kernel.Prelude.Bits.{bit_and-mask, bit_or-fields}

-- `GDT_ENTRY`
pub record GdtEntry : Type 0 where
  pub limit_low : ℕ
  pub base_low : ℕ
  pub base_mid : ℕ
  pub access : ℕ
  pub flags_plus_limit : ℕ
  pub base_high : ℕ

-- `GDT_FLAGS`
pub record GdtFlags : Type 0 where
  pub align4k : Bool
  pub use16 : Bool

-- `GDT_ACCESS`, what the caller chooses
pub record GdtAccess : Type 0 where
  pub data_is_writable : Bool
  pub code_is_readable : Bool

-- `GDT_ACCESS_`
pub record InternalAccess : Type 0 where
  pub is_present : Bool
  pub is_ring3 : Bool
  pub data_is_writable : Bool
  pub code_is_readable : Bool
  pub is_accessed : Bool

pub data SegmentType : Type 0 where
  data_segment code_segment : SegmentType

-- A `bool` as a number.
abbrev pub bit : Bool → ℕ
bit true = 1
bit false = 0

-- `GDT_SEGMENT_TYPE_DATA` and `GDT_SEGMENT_TYPE_CODE`
abbrev pub segment_number : SegmentType → ℕ
segment_number data_segment = 0
segment_number code_segment = 1

unfoldable pub gdt_entry : ℕ → ℕ → ℕ → ℕ → GdtEntry
gdt_entry base limit access flags = record {
  limit_low = u16 (bit_and limit 0xffff);
  base_low = u16 (bit_and base 0xffff);
  base_mid = u8 (bit_and (base >>> 16) 0xff);
  access = access;
  flags_plus_limit = u8 (bit_or flags (bit_and (limit >>> 16) 0x0f));
  base_high = u8 (bit_and (base >>> 24) 0xff);
}

unfoldable pub gdt_prepare_flags : GdtFlags → ℕ
gdt_prepare_flags flags =
    let output_flag = u8 (bit_or 0 (bit_and (bit flags.align4k) 1 <<< 7)) in
    let use32 = if flags.use16 then 0 else 1 in u8 (bit_or output_flag (bit_and use32 1 <<< 6))

-- `GDT_PRIVILEGE_ISRING3` is 3 and `GDT_PRIVILEGE_ISRING0` is 0.
unfoldable pub gdt_prepare_access : InternalAccess → SegmentType → ℕ
gdt_prepare_access access segment_type =
    let present = u8 (bit_or 0 (bit_and (bit access.is_present) 1 <<< 7)) in
    let ring = if access.is_ring3 then bit_or present (3 <<< 5) else bit_or present (0 <<< 5) in
    let system = bit_or ring (1 <<< 4) in
    let typed = u8 (bit_or system (segment_number segment_type <<< 3)) in
    let allowed : ℕ = elim segment_type [
      | data_segment ↦ u8 (bit_or typed (bit_and (bit access.data_is_writable) 1 <<< 1))
      | code_segment ↦ u8 (bit_or typed (bit_and (bit access.code_is_readable) 1 <<< 1))
    ] in
    u8 (bit_or allowed (bit_and (bit access.is_accessed) 1))

abbrev pub kernel_access : GdtAccess → Bool → InternalAccess
kernel_access access ring3 = record {
  is_present = true;
  is_ring3 = ring3;
  data_is_writable = access.data_is_writable;
  code_is_readable = access.code_is_readable;
  is_accessed = false;
}

-- The table that `GDT_setup` hands to the processor; loading it is the processor's.
unfoldable pub gdt_setup : GdtAccess → GdtFlags → List GdtEntry
unfolding gdt_entry gdt_prepare_flags gdt_prepare_access
gdt_setup access flags =
    let var_flags = gdt_prepare_flags flags in
    gdt_entry 0 0 0 0
    ∷ gdt_entry 0 0xffffffff (gdt_prepare_access (kernel_access access false) code_segment)
        var_flags
    ∷ gdt_entry 0 0xffffffff (gdt_prepare_access (kernel_access access false) data_segment)
        var_flags
    ∷ gdt_entry 0 0xffffffff (gdt_prepare_access (kernel_access access true) code_segment) var_flags
    ∷ gdt_entry 0 0xffffffff (gdt_prepare_access (kernel_access access true) data_segment) var_flags
    ∷ []

-- How the processor reads an entry back: base, limit and flags.
abbrev pub base_of : GdtEntry → ℕ
base_of e = e.base_low + e.base_mid * 2 ^ 16 + e.base_high * 2 ^ 24

abbrev pub limit_of : GdtEntry → ℕ
limit_of e = e.limit_low + e.flags_plus_limit % 16 * 2 ^ 16

-- The processor reads back the base, the low 20 bits of the limit, the access byte and the flags
-- that the entry was made from, for flags in the upper half of their byte.
pub gdt_entry_fields :
    (base limit access f : ℕ)
    → base < 2 ^ 32
    → f < 16
    → let e = gdt_entry base limit access (f * 16) in
      (base_of e ≡ base)
      × (limit_of e ≡ limit % 2 ^ 20)
      × (e.access ≡ access)
      × (e.flags_plus_limit / 16 ≡ f)
unfolding gdt_entry
gdt_entry_fields base limit access f hb hf =
    let low = bit_and-mask 16 base in
    let mid = bit_and-mask 8 (base / 2 ^ 16) in
    let high = bit_and-mask 8 (base / 2 ^ 24) in
    let l = bit_and-mask 16 limit in
    let r = bit_and-mask 4 (limit / 2 ^ 16) in
    let both = bit_or-fields 4 f (limit / 2 ^ 16 % 16) (omega arith) in
    rw (low, mid, high, l, r, both) (omega arith, omega arith, refl, omega arith)

-- The bit that a segment type takes from the caller's choice.
abbrev pub choice : InternalAccess → SegmentType → Bool
choice a data_segment = a.data_is_writable
choice a code_segment = a.code_is_readable

-- The access byte has the present bit on top, then the privilege level, the constant bit 4, the
-- segment type, the permission that goes with the type, and the accessed bit.
pub gdt_prepare_access_lem :
    (x : InternalAccess) (t : SegmentType)
    → gdt_prepare_access x t
      ≡ bit x.is_present * 128
        + bit x.is_ring3 * 96
        + 16
        + segment_number t * 8
        + bit (choice x t) * 2
        + bit x.is_accessed
unfolding gdt_prepare_access
gdt_prepare_access_lem x t = ground arith
