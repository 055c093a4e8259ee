-- ===== src/Exec.antt =====
-- exec/: processes and the loader of ELF files.
pub mod Task
pub mod Elf
pub mod Start
mod Tests
