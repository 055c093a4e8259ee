-- ===== src/Util/FindChar.antt =====
-- `find_in_str` for a single character is complete, and for longer texts it is not.
use mathlib.Core.List.{append_assoc}
use vireo_kernel.Prelude.{
  ℕ, zero, suc, ◌+◌, ◌-◌, ◌^◌, ◌<◌, ◌≡◌, ◌≢◌, refl, arith, sym, ap, ◌∙◌, List, [], ◌∷◌, ◌++◌,
  length, done, length-append,
}
use vireo_kernel.Util.{max_u32, find_loop, find_in_str}
use vireo_kernel.Util.Strings.{IsText, terminated, strlen_lem}

abbrev pub Absent : ℕ → List ℕ → Type 0
Absent ch [] = Unit
Absent ch (x ∷ s) = (x ≢ ch) × Absent ch s

module _ (ch : ℕ) (q : List ℕ) where
  find_loop-hit :
      (a b : List ℕ) (left i : ℕ)
      → Absent ch a
      → length a < left
      → i + length a < 2 ^ 32
      → find_loop (ch ∷ q) 1 (a ++ ch ∷ b) left i 0 ≡ done (i + length a)
  unfolding find_loop
  find_loop-hit a b zero i h p small = absurd (omega arith)
  find_loop-hit [] b (suc left) i h p small = ground arith
  find_loop-hit (x ∷ a) b (suc left) i h p small =
      ground (arith, find_loop-hit a b left (i + 1) h.1)

  find_loop-miss :
      (a b : List ℕ) (left i : ℕ)
      → Absent ch a
      → left ≡ length a
      → find_loop (ch ∷ q) 1 (a ++ b) left i 0 ≡ done max_u32
  unfolding find_loop
  find_loop-miss [] b zero i h e = refl
  find_loop-miss [] b (suc left) i h e = absurd (omega arith)
  find_loop-miss (x ∷ a) b zero i h e = refl
  find_loop-miss (x ∷ a) b (suc left) i h e = ground (arith, find_loop-miss a b left (i + 1) h.1)

Absent-terminator : (ch : ℕ) (s : List ℕ) → ch ≢ 0 → Absent ch s → Absent ch (s ++ 0 ∷ [])
Absent-terminator ch [] ne h = (λ e. ne (sym e), tt)
Absent-terminator ch (x ∷ s) ne h = (h.0, Absent-terminator ch s ne h.1)

-- The first character `ch` of a text is found at its index.
pub find_in_str_char :
    (a b r q : List ℕ) (ch : ℕ)
    → IsText (a ++ ch ∷ b)
    → ch ≢ 0
    → Absent ch a
    → length (a ++ ch ∷ b) < 2 ^ 32 - 1
    → find_in_str (terminated (a ++ ch ∷ b) r) (terminated (ch ∷ []) q) ≡ done (length a)
unfolding find_in_str
find_in_str_char a b r q ch text ne absent small =
    rw
      (
        strlen_lem (ch ∷ []) q (ne, tt),
        strlen_lem (a ++ ch ∷ b) r text,
        append_assoc a (ch ∷ b) (0 ∷ r),
      )
      (find_loop-hit ch (0 ∷ q) a (b ++ 0 ∷ r) (length (a ++ ch ∷ b) + 1) 0 absent
          (omega (arith, length-append a (ch ∷ b))) (omega (arith, length-append a (ch ∷ b)))
        ∙ ap done (omega arith))

-- A text without the character is answered with `MAX`.
pub find_in_str_no_char :
    (a r q : List ℕ) (ch : ℕ)
    → IsText a
    → ch ≢ 0
    → Absent ch a
    → find_in_str (terminated a r) (terminated (ch ∷ []) q) ≡ done max_u32
unfolding find_in_str
find_in_str_no_char a r q ch text ne absent =
    rw (strlen_lem (ch ∷ []) q (ne, tt), strlen_lem a r text)
      (rw (← append_assoc a (0 ∷ []) r) (
        find_loop-miss ch (0 ∷ q) (a ++ 0 ∷ []) r (length a + 1) 0
          (Absent-terminator ch a ne absent) (rw length-append (omega arith))))

-- The search does not go back after a mismatch: in the text `c c d` it does not find `c d`.
pub find_in_str_misses :
    (c d : ℕ) (r q : List ℕ)
    → c ≢ 0
    → d ≢ 0
    → c ≢ d
    → find_in_str (terminated (c ∷ c ∷ d ∷ []) r) (terminated (c ∷ d ∷ []) q) ≡ done max_u32
unfolding find_in_str
find_in_str_misses c d r q hc hd ne =
    rw
      (strlen_lem (c ∷ d ∷ []) q (hc, (hd, tt)), strlen_lem (c ∷ c ∷ d ∷ []) r (hc, (hc, (hd, tt))))
      (unfold find_loop in ground arith)
