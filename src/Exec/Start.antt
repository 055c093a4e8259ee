-- ===== src/Exec/Start.antt =====
-- exec/flat.c and the end of exec/elf.c: the jump into a program. `exec_call address stack` stands
-- for asm_exec_call, with what the program does to the state `W`.
use vireo_kernel.Prelude.{
  ℕ, ◌+◌, ◌*◌, not, if◌then◌else◌, ◌==◌, u32, bit_or, Run, done, ◌>>=◌, List,
}
use vireo_kernel.Paging.{Paging, PageReq, valloc}
use vireo_kernel.Exec.Task.{task_new_pid}
use vireo_kernel.Exec.Elf.{ElfHeader, ElfProgram, elf_check_errors, elf_load_binary}

module _ {W : Type 0} (exec_call : ℕ → ℕ → W → Run W) where
  -- The stack is a pointer to words, so `stack + stack_size` is four times the size behind it.
  unfoldable pub flat_call_binary : ℕ → ℕ → ℕ → Paging × W → Run (Paging × W)
  flat_call_binary ptr stack_size last_pid s = do
    stack ← valloc s.0 (record { pid = task_new_pid last_pid; attr = 1; size = stack_size })
    w ← exec_call ptr (u32 (stack.0 + 4 * stack_size)) s.1
    done (stack.1, w)

  -- The exit code, `*ptr` and the state. `at_4096` is what stands at address 4096 read as a PAGE_REQ,
  -- which is where valloc is told to look for the request for the stack. The header is still what it was
  -- when the program is in place.
  unfoldable pub elf_parse_binary :
      (ℕ → ℕ → ℕ → W → W)
      → PageReq
      → ℕ
      → ElfHeader
      → List ElfProgram
      → ℕ
      → Paging × W
      → Run (ℕ × (ℕ × Paging × W))
  elf_parse_binary copy at_4096 ptr hdr progs last_pid s = do
    err ← elf_check_errors hdr
    let start = elf_load_binary copy ptr progs last_pid s >>= λ n. valloc n.1 at_4096 >>= λ stack.
        exec_call (bit_or hdr.entry n.0) stack.0 n.2 >>= λ w. done (0, (n.0, stack.1, w))
    if not (err == 0) then done (err, (ptr, s.0, s.1)) else start
