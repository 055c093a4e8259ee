-- ===== src/Cpu.antt =====
-- cpu/: the descriptor tables of the processor.
pub mod Gdt
pub mod Idt
mod Tests
