-- ===== src/Util/Edit.antt =====
-- What the routines that write leave in the buffer.
use vireo_kernel.Prelude.{
  ℕ, zero, suc, ◌+◌, ◌-◌, ◌^◌, ◌≤◌, ◌<◌, ◌≡◌, ◌⊎◌, inl, refl, arith, ap, ◌∙◌, List, [], ◌∷◌, ◌++◌,
  map, if◌then◌else◌, ◌==◌, length, get_or, set, u32, done, load-eq-done, store-eq-done, length-set,
  length-append, get_or-set_self, get_or-set_ne, ℕ_discrete,
}
use vireo_kernel.Util.{
  replace_loop, replace_in_str, remove_loop, remove_from_str, memcpy_from, memcpy,
}
use vireo_kernel.Util.Strings.{IsText, terminated, strlen_lem}

abbrev pub replaced : ℕ → ℕ → ℕ → ℕ
replaced c repl x = if x == c then repl else x

replace_loop_lem :
    (s rest : List ℕ) (c repl : ℕ)
    → replace_loop (s ++ rest) (length s) c repl ≡ map (replaced c repl) s ++ rest
unfolding replace_loop
replace_loop_lem [] rest c repl = refl
replace_loop_lem (x ∷ s) rest c repl =
    ap (λ r. replaced c repl x ∷ r) (replace_loop_lem s rest c repl)

-- `replace_in_str` replaces every occurrence of the character in the text, and nothing else.
pub replace_in_str_lem :
    (s rest : List ℕ) (c repl : ℕ)
    → IsText s
    → replace_in_str (terminated s rest) c repl ≡ done (terminated (map (replaced c repl) s) rest)
unfolding replace_in_str
replace_in_str_lem s rest c repl text =
    rw (strlen_lem s rest text) (ap done (replace_loop_lem s (0 ∷ rest) c repl))

-- What is at each index after the moves of `remove_from_str`, the target before the source.
record Moved (p out : List ℕ) (left i s : ℕ) : Type 0 where
  same_length : length out ≡ length p
  moved : (j : ℕ) → i ≤ j → j < i + left → get_or out j 0 ≡ get_or p (j + (s - i)) 0
  others : (j : ℕ) → (j < i) ⊎ (i + left ≤ j) → get_or out j 0 ≡ get_or p j 0

remove_loop-Moved :
    (p : List ℕ) (left i s : ℕ)
    → i ≤ s
    → s + left ≤ length p
    → (out : List ℕ) × (remove_loop p left i s ≡ done out) × Moved p out left i s
unfolding remove_loop
remove_loop-Moved p zero i s le fits = (
  p,
  refl,
  record { same_length = refl; moved = λ j a b. absurd (omega arith); others = λ j h. refl },
)
remove_loop-Moved p (suc left) i s le fits =
    let x = get_or p s 0 in
    let p' = set p i x in
    let (out, run, m) =
      remove_loop-Moved p' left (i + 1) (s + 1) (omega arith) (rw length-set (omega arith)) in
    let shift : s + 1 - (i + 1) ≡ s - i = omega arith in
    (
      out,
      rw (load-eq-done p s 0 (omega arith), store-eq-done p i x (omega arith)) run,
      record {
        same_length = m.same_length ∙ length-set p i x;
        moved = λ j a b. elim (ℕ_discrete i j) [
          | yes e ↦
              m.others j (inl (omega arith))
              ∙ rw (← e) (
                  get_or-set_self p i x 0 (omega arith)
                  ∙ ap (λ (k : ℕ). get_or p k 0) (omega arith))
          | no ne ↦
              m.moved j (omega arith) (omega arith)
              ∙ rw shift (get_or-set_ne p i (j + (s - i)) x 0 (omega arith))
        ];
        others = λ j h. m.others j (omega arith) ∙ get_or-set_ne p i j x 0 (omega arith);
      },
    )

get_or-append_left :
    (s rest : List ℕ) (j : ℕ) → j < length s → get_or (s ++ rest) j 0 ≡ get_or s j 0
get_or-append_left [] rest j h = absurd (omega arith)
get_or-append_left (x ∷ s) rest zero h = refl
get_or-append_left (x ∷ s) rest (suc j) h = get_or-append_left s rest j (omega arith)

-- Removing the first `n` characters of a text, at most all of them, moves the others to the front
-- and ends the text behind them.
pub remove_from_str_lem :
    (s rest : List ℕ) (n : ℕ)
    → IsText s
    → n ≤ length s
    → length s < 2 ^ 32
    → (out : List ℕ) × (remove_from_str (terminated s rest) n ≡ done out)
      × ((j : ℕ) → j < length s - n → get_or out j 0 ≡ get_or s (j + n) 0)
      × (get_or out (length s - n) 0 ≡ 0)
unfolding remove_from_str
remove_from_str_lem s rest n text le small =
    let p = terminated s rest in
    let long : length (terminated s rest) ≡ length s + suc (length rest) =
      length-append s (0 ∷ rest) in
    let (out, run, m) = remove_loop-Moved p (length s - n) 0 n (omega arith) (omega arith) in
    let at : u32 (length s + 2 ^ 32 - n) ≡ length s - n = omega arith in
    let inside : length s - n < length out = omega (arith, m.same_length) in
    (
      set out (length s - n) 0,
      rw (strlen_lem s rest text, run, at) (store-eq-done out (length s - n) 0 inside),
      λ j h.
          get_or-set_ne out (length s - n) j 0 0 (omega arith)
          ∙ m.moved j (omega arith) (omega arith)
          ∙ ap (λ (k : ℕ). get_or p k 0) (omega arith)
          ∙ get_or-append_left s (0 ∷ rest) (j + n) (omega arith),
      get_or-set_self out (length s - n) 0 0 inside,
    )

-- The buffer `out` holds `source` from index `lo` to `hi` and is otherwise `before`.
pub record Copied (before source out : List ℕ) (lo hi : ℕ) : Type 0 where
  pub same_length : length out ≡ length before
  pub copied : (j : ℕ) → lo ≤ j → j < hi → get_or out j 0 ≡ get_or source j 0
  pub others : (j : ℕ) → (j < lo) ⊎ (hi ≤ j) → get_or out j 0 ≡ get_or before j 0

memcpy_from-Copied :
    (before source : List ℕ) (left i : ℕ)
    → i + left ≤ length before
    → i + left ≤ length source
    → (out : List ℕ) × (memcpy_from before source left i ≡ done out)
      × Copied before source out i (i + left)
unfolding memcpy_from
memcpy_from-Copied before source zero i hb hs = (
  before,
  refl,
  record { same_length = refl; copied = λ j a b. absurd (omega arith); others = λ j h. refl },
)
memcpy_from-Copied before source (suc left) i hb hs =
    let x = get_or source i 0 in
    let (out, run, c) =
      memcpy_from-Copied (set before i x) source left (i + 1) (rw length-set (omega arith))
        (omega arith) in
    (
      out,
      rw (load-eq-done source i 0 (omega arith), store-eq-done before i x (omega arith)) run,
      record {
        same_length = c.same_length ∙ length-set before i x;
        copied = λ j a b. elim (ℕ_discrete i j) [
          | yes e ↦
              c.others j (inl (omega arith)) ∙ rw (← e) (get_or-set_self before i x 0 (omega arith))
          | no ne ↦ c.copied j (omega arith) (omega arith)
        ];
        others = λ j h. c.others j (omega arith) ∙ get_or-set_ne before i j x 0 (omega arith);
      },
    )

-- `memcpy` of a size that fits both objects copies the first `size` bytes and no others.
pub memcpy-Copied :
    (destination source : List ℕ) (size : ℕ)
    → size ≤ length destination
    → size ≤ length source
    → (out : List ℕ) × (memcpy destination source size ≡ done out)
      × Copied destination source out 0 size
unfolding memcpy
memcpy-Copied destination source size hd hs =
    let (out, run, c) = memcpy_from-Copied destination source size 0 (omega arith) (omega arith) in
    let e : 0 + size ≡ size = omega arith in (out, run, rw e at c)
