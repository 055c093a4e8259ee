-- ===== src/Cpu/Idt.antt =====
-- cpu/interrupts/IDT.c: the interrupt descriptor table of 256 gates.
use vireo_kernel.Prelude.{
  ℕ, ◌+◌, ◌*◌, ◌/◌, ◌^◌, ◌<◌, ◌≡◌, ◌≢◌, refl, arith, sym, ap, ◌∙◌, List, [], ◌∷◌, u16, ◌>>>◌,
  bit_and, length, get_or, set, replicate, get_or-set_self, get_or-set_ne,
}
use vireo_kernel.Prelude.Bits.{bit_and-mask}

-- `IDT_ENTRY`
pub record IdtEntry : Type 0 where
  pub offset_low : ℕ
  pub selector : ℕ
  pub always_zero : ℕ
  pub type_attr : ℕ
  pub offset_hi : ℕ

abbrev pub empty_gate : IdtEntry
empty_gate = record { offset_low = 0; selector = 0; always_zero = 0; type_attr = 0; offset_hi = 0 }

-- `IDT`, zeroed when the kernel starts
abbrev pub empty_idt : List IdtEntry
empty_idt = replicate 256 empty_gate

unfoldable pub gate : ℕ → IdtEntry
gate handler = record {
  offset_low = bit_and (u16 handler) 0xffff;
  selector = 0x08;
  always_zero = 0;
  type_attr = 0x8e;
  offset_hi = bit_and (u16 (handler >>> 16)) 0xffff;
}

-- `index` is a `uint8_t`, so the write is inside the table.
unfoldable pub idt_add_handler : List IdtEntry → ℕ → ℕ → List IdtEntry
unfolding gate
idt_add_handler idt index handler = set idt index (gate handler)

-- The vectors that `IDT_default_list` gives a handler, in its order.
abbrev pub default_vectors : List ℕ
default_vectors =
    0x00 ∷ 0x01 ∷ 0x02 ∷ 0x03 ∷ 0x04 ∷ 0x05 ∷ 0x06 ∷ 0x07 ∷ 0x08 ∷ 0x09 ∷ 0x0a ∷ 0x0b ∷ 0x0c ∷ 0x0d
    ∷ 0x0e ∷ 0x20 ∷ 0x21 ∷ []

pub add_handlers : List IdtEntry → (ℕ → ℕ) → List ℕ → List IdtEntry
add_handlers idt isr [] = idt
add_handlers idt isr (v ∷ vs) = add_handlers (idt_add_handler idt v (isr v)) isr vs

-- `isr` gives the address of the assembly stub of a vector. `IDT_setup` also loads the table.
pub idt_default_list : List IdtEntry → (ℕ → ℕ) → List IdtEntry
unfolding add_handlers
idt_default_list idt isr = add_handlers idt isr default_vectors

abbrev pub gate_at : List IdtEntry → ℕ → IdtEntry
gate_at idt i = get_or idt i empty_gate

-- The address that a gate leads to.
abbrev pub offset_of : IdtEntry → ℕ
offset_of e = e.offset_low + e.offset_hi * 2 ^ 16

-- The processor finds the handler again in the gate.
gate-offset : (handler : ℕ) → handler < 2 ^ 32 → offset_of (gate handler) ≡ handler
unfolding gate
gate-offset handler h =
    rw (bit_and-mask 16 (u16 handler), bit_and-mask 16 (u16 (handler / 2 ^ 16))) (omega arith)

-- `IDT_add_handler` makes its vector lead to the handler as a present 32-bit interrupt gate in
-- ring 0, and leaves every other vector as it was.
pub idt_add_handler_lem :
    (idt : List IdtEntry) (index handler : ℕ)
    → length idt ≡ 256
    → index < 256
    → handler < 2 ^ 32
    → let idt' = idt_add_handler idt index handler in
      (offset_of (gate_at idt' index) ≡ handler)
      × ((gate_at idt' index).type_attr ≡ 0x8e)
      × ((gate_at idt' index).selector ≡ 0x08)
      × ((j : ℕ) → j ≢ index → gate_at idt' j ≡ gate_at idt j)
unfolding idt_add_handler
idt_add_handler_lem idt index handler l hi hh =
    let self = get_or-set_self idt index (gate handler) empty_gate (omega arith) in
    (
      rw self (gate-offset handler hh),
      ap (λ e. e.type_attr) self ∙ unfold gate in refl,
      ap (λ e. e.selector) self ∙ unfold gate in refl,
      λ j ne. get_or-set_ne idt index j (gate handler) empty_gate (λ e. ne (sym e)),
    )
