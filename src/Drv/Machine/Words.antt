-- ===== src/Drv/Machine/Words.antt =====
-- Words in a list of bytes: what a write leaves.
use vireo_kernel.Prelude.{
  ℕ, ◌+◌, ◌/◌, ◌%◌, ◌^◌, ◌≤◌, ◌<◌, ◌≡◌, ◌⊎◌, refl, arith, List, length, get_or, set, length-set,
  get_or-set_self, get_or-set_ne, done, store-eq-done, fault, load-eq-fault,
}
use vireo_kernel.Dsk.Mbr.{word_at}
use vireo_kernel.Dsk.Mbr.Entries.{word}
use vireo_kernel.Drv.Machine.{store_word}

abbrev pub with_word : List ℕ → ℕ → ℕ → List ℕ
with_word bytes i v =
    set
      (set (set (set bytes i (v % 2 ^ 8)) (i + 1) (v / 2 ^ 8 % 2 ^ 8)) (i + 2) (v / 2 ^ 16 % 2 ^ 8))
      (i + 3) (v / 2 ^ 24 % 2 ^ 8)

pub length-with_word : (bytes : List ℕ) (i v : ℕ) → length (with_word bytes i v) ≡ length bytes
length-with_word bytes i v = rw (length-set, length-set, length-set, length-set) refl

-- A byte of the list after the write.
get_or-with_word :
    (bytes : List ℕ) (i v : ℕ)
    → i + 3 < length bytes
    → (get_or (with_word bytes i v) i 0 ≡ v % 2 ^ 8)
      × (get_or (with_word bytes i v) (i + 1) 0 ≡ v / 2 ^ 8 % 2 ^ 8)
      × (get_or (with_word bytes i v) (i + 2) 0 ≡ v / 2 ^ 16 % 2 ^ 8)
      × (get_or (with_word bytes i v) (i + 3) 0 ≡ v / 2 ^ 24 % 2 ^ 8)
get_or-with_word bytes i v h =
    let a = set bytes i (v % 2 ^ 8) in
    let b = set a (i + 1) (v / 2 ^ 8 % 2 ^ 8) in
    let c = set b (i + 2) (v / 2 ^ 16 % 2 ^ 8) in
    let la = length-set bytes i (v % 2 ^ 8) in
    let lb = length-set a (i + 1) (v / 2 ^ 8 % 2 ^ 8) in
    let lc = length-set b (i + 2) (v / 2 ^ 16 % 2 ^ 8) in
    let top = v / 2 ^ 24 % 2 ^ 8 in
    (
      rw
          (
            get_or-set_ne c (i + 3) i top 0 (omega arith),
            get_or-set_ne b (i + 2) i (v / 2 ^ 16 % 2 ^ 8) 0 (omega arith),
            get_or-set_ne a (i + 1) i (v / 2 ^ 8 % 2 ^ 8) 0 (omega arith),
          )
          (get_or-set_self bytes i (v % 2 ^ 8) 0 (omega arith)),
      rw
          (
            get_or-set_ne c (i + 3) (i + 1) top 0 (omega arith),
            get_or-set_ne b (i + 2) (i + 1) (v / 2 ^ 16 % 2 ^ 8) 0 (omega arith),
          )
          (get_or-set_self a (i + 1) (v / 2 ^ 8 % 2 ^ 8) 0 (omega (arith, la))),
      rw (get_or-set_ne c (i + 3) (i + 2) top 0 (omega arith))
          (get_or-set_self b (i + 2) (v / 2 ^ 16 % 2 ^ 8) 0 (omega (arith, la, lb))),
      get_or-set_self c (i + 3) top 0 (omega (arith, la, lb, lc)),
    )

get_or-with_word_ne :
    (bytes : List ℕ) (i v j : ℕ)
    → (j < i) ⊎ (i + 3 < j)
    → get_or (with_word bytes i v) j 0 ≡ get_or bytes j 0
get_or-with_word_ne bytes i v j apart =
    let a = set bytes i (v % 2 ^ 8) in
    let b = set a (i + 1) (v / 2 ^ 8 % 2 ^ 8) in
    let c = set b (i + 2) (v / 2 ^ 16 % 2 ^ 8) in
    rw
      (
        get_or-set_ne c (i + 3) j (v / 2 ^ 24 % 2 ^ 8) 0 (omega arith),
        get_or-set_ne b (i + 2) j (v / 2 ^ 16 % 2 ^ 8) 0 (omega arith),
        get_or-set_ne a (i + 1) j (v / 2 ^ 8 % 2 ^ 8) 0 (omega arith),
      )
      (get_or-set_ne bytes i j (v % 2 ^ 8) 0 (omega arith))

pub word-with_word :
    (bytes : List ℕ) (i v : ℕ)
    → i + 3 < length bytes
    → v < 2 ^ 32
    → word (with_word bytes i v) i ≡ v
word-with_word bytes i v h small =
    let (b0, b1, b2, b3) = get_or-with_word bytes i v h in rw (b0, b1, b2, b3) (omega arith)

pub word-with_word_ne :
    (bytes : List ℕ) (i v j : ℕ)
    → (j + 3 < i) ⊎ (i + 3 < j)
    → word (with_word bytes i v) j ≡ word bytes j
word-with_word_ne bytes i v j apart = rw (
  get_or-with_word_ne bytes i v j (ground arith),
  get_or-with_word_ne bytes i v (j + 1) (ground arith),
  get_or-with_word_ne bytes i v (j + 2) (ground arith),
  get_or-with_word_ne bytes i v (j + 3) (ground arith),
)

pub store_word_lem :
    (bytes : List ℕ) (i v : ℕ)
    → i + 3 < length bytes
    → store_word bytes i v ≡ done (with_word bytes i v)
store_word_lem bytes i v h =
    let a = set bytes i (v % 2 ^ 8) in
    let b = set a (i + 1) (v / 2 ^ 8 % 2 ^ 8) in
    let c = set b (i + 2) (v / 2 ^ 16 % 2 ^ 8) in
    let la = length-set bytes i (v % 2 ^ 8) in
    let lb = length-set a (i + 1) (v / 2 ^ 8 % 2 ^ 8) in
    let lc = length-set b (i + 2) (v / 2 ^ 16 % 2 ^ 8) in
    rw
      (
        store-eq-done bytes i (v % 2 ^ 8) (omega arith),
        store-eq-done a (i + 1) (v / 2 ^ 8 % 2 ^ 8) (omega (arith, la)),
        store-eq-done b (i + 2) (v / 2 ^ 16 % 2 ^ 8) (omega (arith, la, lb)),
      )
      (store-eq-done c (i + 3) (v / 2 ^ 24 % 2 ^ 8) (omega (arith, la, lb, lc)))

-- A word that starts behind the bytes.
pub word_at_fault : (bytes : List ℕ) (i : ℕ) → length bytes ≤ i → word_at bytes i ≡ fault
unfolding word_at
word_at_fault bytes i h = rw (load-eq-fault bytes i h)
