-- ===== src/Paging/Entry.antt =====
-- Page table entries, and the translation of an address through one that was just written.
use vireo_kernel.Prelude.{ℕ, ◌+◌, ◌*◌, ◌/◌, ◌%◌, ◌^◌, ◌<◌, ◌≡◌, ◌≢◌, arith, ap, bit_and, u32}
use vireo_kernel.Prelude.Bits.{
  bit_and-split, bit_and-mask, bit_and-zero, zero-bit_and, bit_or-fields,
}
use vireo_kernel.Paging.{
  PageReq, Words, Paging, paging_convert_ptr_to_entry, paging_map, paging_vptr_to_pptr, table_of,
  poke,
}

pub poke_self : (mem : Words) (a v : ℕ) → poke mem a v a ≡ v
poke_self mem a v = ground arith

pub poke_ne : (mem : Words) (a v b : ℕ) → a ≢ b → poke mem a v b ≡ mem b
poke_ne mem a v b h = ground arith

-- `& 0xfffff000` rounds a 32-bit address down to its page.
pub bit_and-page : (a : ℕ) → a < 2 ^ 32 → bit_and a 0xfffff000 ≡ a / 4096 * 4096
bit_and-page a h = omega (
  arith,
  ap (λ (x : ℕ). bit_and x 0xfffff000) (div_page a),
  bit_and-split 12 (a / 4096) 0xfffff (a % 4096) 0 (omega arith) (omega arith),
  bit_and-mask 20 (a / 4096),
  bit_and-zero (a % 4096),
)
  where
    div_page : (a : ℕ) → a ≡ a / 4096 * 2 ^ 12 + a % 4096
    div_page a = omega arith

bit_and-attributes : (q : ℕ) → q < 2 ^ 20 → bit_and (q * 4096) 0xfffffffb ≡ q * 4096
bit_and-attributes q h = omega (
  arith,
  ap (λ (x : ℕ). bit_and x 0xfffffffb) (plus_zero q),
  bit_and-split 12 q 0xfffff 0 0xffb (omega arith) (omega arith),
  bit_and-mask 20 q,
  zero-bit_and 0xffb,
)
  where
    plus_zero : (q : ℕ) → q * 4096 ≡ q * 2 ^ 12 + 0
    plus_zero q = omega arith

-- An entry for the page frame `q` with attributes below 4 holds the frame, the attributes one bit
-- up, and the present bit. So `PAGE_REQ_ATTR_SUPERVISOR` sets bit 2, which allows user access.
pub entry_of_page :
    (q : ℕ) (req : PageReq)
    → q < 2 ^ 20
    → req.attr < 4
    → paging_convert_ptr_to_entry (q * 4096) req ≡ q * 4096 + req.attr * 2 + 1
unfolding paging_convert_ptr_to_entry
entry_of_page q req hq ha =
    let small : u32 (req.attr * 2) ≡ req.attr * 2 = omega arith in
    let even : q * 4096 + req.attr * 2 ≡ (q * 2048 + req.attr) * 2 = omega arith in
    rw (bit_and-attributes q hq, small, bit_or-fields 12 q (req.attr * 2) (omega arith), even)
      (omega (arith, bit_or-fields 1 (q * 2048 + req.attr) 1 (omega arith)))

bit_and-ten : (x : ℕ) → bit_and x 0x3ff ≡ x % 1024
bit_and-ten x = bit_and-mask 10 x

bit_and-offset : (x : ℕ) → bit_and x 0xfff ≡ x % 4096
bit_and-offset x = bit_and-mask 12 x

bit_and-one : (x : ℕ) → bit_and x 1 ≡ x % 2
bit_and-one x = bit_and-mask 1 x

-- A present entry for frame `q` in the table of a present directory entry.
translate :
    (p : Paging) (w q attr : ℕ)
    → q < 2 ^ 20
    → attr < 4
    → p.mem (p.page_dir + 4 * (w / 2 ^ 22)) % 2 ≡ 1
    → p.mem (table_of p.mem p.page_dir (w / 2 ^ 22) + 4 * (w / 4096 % 1024))
      ≡ q * 4096 + attr * 2 + 1
    → paging_vptr_to_pptr p w ≡ q * 4096 + w % 4096
unfolding paging_vptr_to_pptr
translate p w q attr hq ha present e =
    let odd : (q * 4096 + attr * 2 + 1) % 2 ≡ 1 = omega arith in
    rw
      (
        bit_and-one (p.mem (p.page_dir + 4 * (w / 2 ^ 22))),
        bit_and-ten (w / 2 ^ 12),
        present,
        e,
        bit_and-one (q * 4096 + attr * 2 + 1),
        odd,
        bit_and-page (q * 4096 + attr * 2 + 1) (omega arith),
        bit_and-offset w,
      )
      (omega arith)

-- Mapping a page and translating any address of that page gives the address in the frame, if the
-- directory entry is present and its word is not the one that is written.
pub paging_map-translate :
    (p : Paging) (q vptr w : ℕ) (req : PageReq)
    → q < 2 ^ 20
    → req.attr < 4
    → w / 4096 ≡ vptr / 4096
    → p.mem (p.page_dir + 4 * (w / 2 ^ 22)) % 2 ≡ 1
    → table_of p.mem p.page_dir (w / 2 ^ 22) + 4 * (w / 4096 % 1024) ≢ p.page_dir + 4 * (w / 2 ^ 22)
    → paging_vptr_to_pptr (paging_map p (q * 4096) vptr req) w ≡ q * 4096 + w % 4096
unfolding paging_map
paging_map-translate p q vptr w req hq ha page present apart =
    let dir_same : vptr / 2 ^ 22 ≡ w / 2 ^ 22 = omega arith in
    let tab_same : bit_and (vptr / 2 ^ 12) 0x3ff ≡ w / 4096 % 1024 =
      omega (arith, bit_and-ten (vptr / 2 ^ 12)) in
    let v = paging_convert_ptr_to_entry (q * 4096) req in
    let d = p.page_dir + 4 * (w / 2 ^ 22) in
    let a = table_of p.mem p.page_dir (w / 2 ^ 22) + 4 * (w / 4096 % 1024) in
    translate (paging_map p (q * 4096) vptr req) w q req.attr hq ha
      (rw (dir_same, tab_same, poke_ne p.mem a v d apart) present)
      (rw (dir_same, tab_same, poke_ne p.mem a v d apart, poke_self p.mem a v)
        (entry_of_page q req hq ha))
