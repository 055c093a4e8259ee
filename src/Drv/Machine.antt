-- ===== src/Drv/Machine.antt =====
-- What the file system drivers stand on: the disk layer (dsk/diskio.c), kmalloc and valloc, and the
-- memory that C code reads without having written it.
pub mod Words
pub mod Buffers
pub mod Medium
use vireo_kernel.Prelude.{
  ℕ, zero, suc, ◌+◌, ◌*◌, ◌/◌, ◌%◌, ◌^◌, Run, done, ◌>>=◌, load, store, List, [], ◌∷◌, Option, none,
  some,
}

-- `W` is the state of the disks. `read_disk drive lba sectors` answers with the exit code and the bytes
-- that it puts into the buffer. `fresh n` is what a new block for n bytes holds, to its end: the heap
-- gives out whole blocks; where a driver does not look at the answer, the request is taken to be
-- granted. `block_for n` is the answer where it does, with `none` for NULL. `fresh_words n` is such a block as
-- 32-bit words. `stack n` is what n bytes of local
-- variables hold, `pages n` what valloc gives for n bytes, and `low` the memory at address 0,
-- which an access through NULL reads.
pub record Machine (W : Type 0) : Type 0 where
  pub read_disk : ℕ → ℕ → ℕ → W → Run (ℕ × List ℕ)
  pub write_disk : ℕ → ℕ → ℕ → List ℕ → W → Run W
  pub fresh : ℕ → List ℕ
  pub block_for : ℕ → Option (List ℕ)
  pub fresh_words : ℕ → List ℕ
  pub stack : ℕ → List ℕ
  pub pages : ℕ → Option (List ℕ)
  pub low : List ℕ

abbrev pub or_low {ℓ} : {A : Type ℓ} → A → Option A → A
or_low low none = low
or_low low (some p) = p

-- `*(uint16_t *) &bytes[i]`
abbrev pub half_at : List ℕ → ℕ → Run ℕ
half_at bytes i = do b0 ← load bytes i; b1 ← load bytes (i + 1); done (b0 + b1 * 2 ^ 8)

-- `*(uint16_t *) &bytes[i] = v`
abbrev pub store_half : List ℕ → ℕ → ℕ → Run (List ℕ)
store_half bytes i v = do a ← store bytes i (v % 2 ^ 8); store a (i + 1) (v / 2 ^ 8 % 2 ^ 8)

-- `*(uint32_t *) &bytes[i] = v`
abbrev pub store_word : List ℕ → ℕ → ℕ → Run (List ℕ)
store_word bytes i v = do
  a ← store bytes i (v % 2 ^ 8)
  b ← store a (i + 1) (v / 2 ^ 8 % 2 ^ 8)
  c ← store b (i + 2) (v / 2 ^ 16 % 2 ^ 8)
  store c (i + 3) (v / 2 ^ 24 % 2 ^ 8)

-- The bytes that a driver puts at `&buffer[i]`.
unfoldable pub put_bytes : List ℕ → ℕ → List ℕ → Run (List ℕ)
put_bytes buffer i [] = done buffer
put_bytes buffer i (x ∷ xs) = do b ← store buffer i x; put_bytes b (i + 1) xs

-- `n` bytes that a driver takes from `&buffer[i]`.
unfoldable pub fetch : List ℕ → ℕ → ℕ → Run (List ℕ)
fetch buffer i zero = done []
fetch buffer i (suc n) = do x ← load buffer i; xs ← fetch buffer (i + 1) n; done (x ∷ xs)
