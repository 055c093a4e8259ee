-- ===== src/Exec/Elf.antt =====
-- exec/elf.c: the checks of a header and the loading of segments. The packed structures are
-- records; `copy to from size` stands for memcpy between addresses.
use vireo_kernel.Prelude.{
  ℕ, sym, ap, ◌∙◌, ◌+◌, ◌≡◌, ◌↔◌, refl, arith, Bool, true, false, not, ◌&&◌, ◌||◌, if◌then◌else◌,
  ◌==◌, u32, Run, done, ◌>>=◌, load, drop, List, [], ◌∷◌,
}
use vireo_kernel.Util.{strcmp_until, strcmp_until_loop}
use vireo_kernel.Paging.{Paging, valloc}
use vireo_kernel.Exec.Task.{task_new_pid}

pub record ElfHeader : Type 0 where
  pub elf_ident : List ℕ
  pub type : ℕ
  pub machine : ℕ
  pub entry : ℕ
  pub phoff : ℕ
  pub phnum : ℕ

pub record ElfProgram : Type 0 where
  pub type : ℕ
  pub offset : ℕ
  pub file_size : ℕ
  pub memsize : ℕ

unfoldable pub elf_check_file : ElfHeader → Run Bool
elf_check_file hdr = do
  magic ← load hdr.elf_ident 0
  if not (magic == 0x7f) then done false else do
    differs ← strcmp_until (drop 1 hdr.elf_ident) (b'E' ∷ b'L' ∷ b'F' ∷ 0 ∷ []) 3
    done (differs == 0)

-- The byte 5 is looked at twice, for the byte order and for the version.
unfoldable pub elf_check_compat : ElfHeader → Run Bool
elf_check_compat hdr = do
  class ← load hdr.elf_ident 4
  order ← load hdr.elf_ident 5
  done (class == 1 && order == 1 && order == 1 && hdr.machine == 3)

unfoldable pub elf_check_errors : ElfHeader → Run ℕ
elf_check_errors hdr = do
  is_elf ← elf_check_file hdr
  if not is_elf then done 0x01 else do
    compatible ← elf_check_compat hdr
    if not compatible then done 0x0a else done (if hdr.type == 2 then 0x00 else 0x02)

module _ {W : Type 0} (copy : ℕ → ℕ → ℕ → W → W) where
  -- The loop of `elf_load_binary` over the program headers: `ptr` is 0 until a page was taken.
  unfoldable pub load_segments : ℕ → ℕ → List ElfProgram → ℕ → Paging × W → Run (ℕ × Paging × W)
  load_segments file pid [] ptr s = done (ptr, s.0, s.1)
  load_segments file pid (prog ∷ progs) ptr s =
      let go = load_segments file pid progs in
      if not (prog.type == 1)
      then go ptr s
      else (valloc s.0 (record { pid = pid; attr = 1; size = prog.memsize }) >>= λ r.
          go (if ptr == 0 then r.0 else ptr)
            (r.1, copy r.0 (u32 (file + prog.offset)) prog.file_size s.1))

  -- `last_pid` is the process number given out before; the new one is
  -- `task_new_pid last_pid`.
  unfoldable pub elf_load_binary : ℕ → List ElfProgram → ℕ → Paging × W → Run (ℕ × Paging × W)
  elf_load_binary file progs last_pid s = load_segments file (task_new_pid last_pid) progs 0 s

-- A header with these first six bytes.
abbrev pub with_ident : ElfHeader → ℕ → ℕ → ℕ → ℕ → ℕ → ℕ → List ℕ → ElfHeader
with_ident hdr b0 b1 b2 b3 b4 b5 rest = record hdr {
  elf_ident = b0 ∷ b1 ∷ b2 ∷ b3 ∷ b4 ∷ b5 ∷ rest;
}

abbrev pub magic_text : ℕ → ℕ → ℕ → Bool
magic_text b1 b2 b3 = b1 == b'E' && (b2 == 0 || b2 == b'L' && (b3 == 0 || b3 == b'F'))

strcmp_until-magic :
    (b1 b2 b3 b4 : ℕ) (rest : List ℕ)
    → strcmp_until (b1 ∷ b2 ∷ b3 ∷ b4 ∷ rest) (b'E' ∷ b'L' ∷ b'F' ∷ 0 ∷ []) 3
      ≡ done (if magic_text b1 b2 b3 then 0 else 1)
unfolding strcmp_until strcmp_until_loop
strcmp_until-magic b1 b2 b3 b4 rest = ground arith

elf_check_errors_value :
    (hdr : ElfHeader) (b0 b1 b2 b3 b4 b5 : ℕ) (rest : List ℕ)
    → elf_check_errors (with_ident hdr b0 b1 b2 b3 b4 b5 rest)
      ≡ done (
          if b0 == 0x7f && magic_text b1 b2 b3
          then (if b4 == 1 && b5 == 1 && hdr.machine == 3
              then (if hdr.type == 2 then 0 else 2)
              else 0x0a)
          else 1)
unfolding elf_check_errors elf_check_file elf_check_compat
elf_check_errors_value hdr b0 b1 b2 b3 b4 b5 rest =
    rw (strcmp_until-magic b1 b2 b3 b4 (b5 ∷ rest)) (ground arith)

abbrev code_of : ℕ → ℕ → ℕ → ℕ → ℕ → Bool → ℕ
code_of b0 b4 b5 machine type magic =
    if b0 == 0x7f && magic
    then (if b4 == 1 && b5 == 1 && machine == 3 then (if type == 2 then 0 else 2) else 0x0a)
    else 1

code_of-zero :
    (b0 b4 b5 machine type : ℕ) (magic : Bool)
    → code_of b0 b4 b5 machine type magic ≡ 0
    → (b0 ≡ 0x7f) × (magic ≡ true) × (b4 ≡ 1) × (b5 ≡ 1) × (machine ≡ 3) × (type ≡ 2)
code_of-zero b0 b4 b5 machine type true h =
    (ground arith, refl, ground arith, ground arith, ground arith, ground arith)
code_of-zero b0 b4 b5 machine type false h = absurd (ground arith)

zero-code_of :
    (b0 b4 b5 machine type : ℕ) (magic : Bool)
    → (b0 ≡ 0x7f) × (magic ≡ true) × (b4 ≡ 1) × (b5 ≡ 1) × (machine ≡ 3) × (type ≡ 2)
    → code_of b0 b4 b5 machine type magic ≡ 0
zero-code_of b0 b4 b5 machine type magic (e0, em, e4, e5, eh, et) = rw (e0, em, e4, e5, eh, et)

done_injective : {a b : ℕ} → done a ≡ done b → a ≡ b
done_injective e = cc

-- A header is accepted exactly if byte 0 is 0x7f, the bytes from 1 on spell ELF or a beginning of
-- it that a zero byte ends, the class and the byte order are 1, the machine is 3 and the type is 2.
-- The version byte plays no part.
pub elf_check_errors_lem :
    (hdr : ElfHeader) (b0 b1 b2 b3 b4 b5 : ℕ) (rest : List ℕ)
    → (elf_check_errors (with_ident hdr b0 b1 b2 b3 b4 b5 rest) ≡ done 0) ↔ (
        (b0 ≡ 0x7f)
        × (magic_text b1 b2 b3 ≡ true)
        × (b4 ≡ 1)
        × (b5 ≡ 1)
        × (hdr.machine ≡ 3)
        × (hdr.type ≡ 2))
elf_check_errors_lem hdr b0 b1 b2 b3 b4 b5 rest =
    let value = elf_check_errors_value hdr b0 b1 b2 b3 b4 b5 rest in
    (
      (λ h.
          code_of-zero b0 b4 b5 hdr.machine hdr.type (magic_text b1 b2 b3)
            (done_injective (sym value ∙ h))),
      (λ h. value ∙ ap done (zero-code_of b0 b4 b5 hdr.machine hdr.type (magic_text b1 b2 b3) h)),
    )
