-- ===== src/Util/Find.antt =====
-- `find_in_str`: what an answer means, and where the search is complete.
use vireo_kernel.Prelude.{
  ℕ, zero, suc, ◌+◌, ◌-◌, ◌^◌, ◌≤◌, ◌<◌, ◌≡◌, ◌≢◌, ◌⊎◌, inl, inr, refl, arith, sym, ap, ◌∙◌, List,
  [], ◌∷◌, if◌then◌else◌, ◌==◌, length, get_or, u32, done, load-eq-done, ℕ_discrete, length-append,
}
use vireo_kernel.Util.{max_u32, find_loop, find_in_str}
use vireo_kernel.Util.Strings.{IsText, terminated, strlen_lem}

abbrev pub char_at : List ℕ → ℕ → ℕ
char_at s i = get_or s i 0

-- The text `fnd` stands in `o` at index `k`.
abbrev pub OccursAt : List ℕ → List ℕ → ℕ → Type 0
OccursAt o fnd k = (j : ℕ) → j < length fnd → char_at o (k + j) ≡ char_at fnd j

char_at-terminated : (s rest : List ℕ) → char_at (terminated s rest) (length s) ≡ 0
char_at-terminated [] rest = refl
char_at-terminated (c ∷ s) rest = char_at-terminated s rest

char_at-text :
    (s rest : List ℕ) (j : ℕ) → j < length s → char_at (terminated s rest) j ≡ char_at s j
char_at-text [] rest j h = absurd (omega arith)
char_at-text (c ∷ s) rest zero h = refl
char_at-text (c ∷ s) rest (suc j) h = char_at-text s rest j (omega arith)

char_at-ne_zero : (s : List ℕ) (j : ℕ) → IsText s → j < length s → char_at s j ≢ 0
char_at-ne_zero [] j t h = absurd (omega arith)
char_at-ne_zero (c ∷ s) zero t h = t.0
char_at-ne_zero (c ∷ s) (suc j) t h = char_at-ne_zero s j t.1 (omega arith)

-- What the loop knows at character `i`: the `c` characters before it are the first of `fnd`.
record Matching (o rest fnd : List ℕ) (n i c : ℕ) : Type 0 where
  total : i + length rest ≡ n
  agrees : (j : ℕ) → char_at rest j ≡ char_at o (i + j)
  short : c < length fnd
  behind : c ≤ i
  matched : (j : ℕ) → j < c → char_at o (i - c + j) ≡ char_at fnd j

-- The answer is `MAX`, or the index of an occurrence that ends before the end of the text.
abbrev pub Found : List ℕ → List ℕ → ℕ → ℕ → Type 0
Found o fnd len r = (r ≡ max_u32) ⊎ ((r + length fnd ≤ len) × OccursAt o fnd r)

module _ (o fnd q : List ℕ) (len n : ℕ) (text : IsText fnd) (small : len < 2 ^ 32 - 1) where
  Matching-next :
      {x : ℕ} {rest : List ℕ} {i c : ℕ}
      → Matching o (x ∷ rest) fnd n i c
      → x ≡ char_at fnd c
      → suc c < length fnd
      → Matching o rest fnd n (i + 1) (c + 1)
  Matching-next {x} {rest} {i} {c} m e h = record {
    total = omega (arith, m.total);
    agrees = λ j. m.agrees (suc j) ∙ ap (char_at o) (omega arith);
    short = omega arith;
    behind = omega (arith, m.behind);
    matched = λ j p. elim (ℕ_discrete j c) [
      | yes k ↦ rw k (ap (char_at o) (omega (arith, m.behind)) ∙ sym (m.agrees 0) ∙ e)
      | no k ↦ ap (char_at o) (omega (arith, m.behind)) ∙ m.matched j (omega arith)
    ];
  }

  Matching-reset :
      {x : ℕ} {rest : List ℕ} {i c : ℕ}
      → Matching o (x ∷ rest) fnd n i c
      → Matching o rest fnd n (i + 1) 0
  Matching-reset {i} m = record {
    total = omega (arith, m.total);
    agrees = λ j. m.agrees (suc j) ∙ ap (char_at o) (omega arith);
    short = omega (arith, m.short);
    behind = omega arith;
    matched = λ j p. absurd (omega arith);
  }

  Matching-full :
      {x : ℕ} {rest : List ℕ} {i c : ℕ}
      → Matching o (x ∷ rest) fnd n i c
      → x ≡ char_at fnd c
      → suc c ≡ length fnd
      → i < len
      → Found o fnd len (u32 (i + 2 ^ 32 - length fnd + 1))
  Matching-full {x} {rest} {i} {c} m e h below =
      let index : u32 (i + 2 ^ 32 - length fnd + 1) ≡ i - c = omega (arith, m.behind) in
      rw index (
        inr (
          omega (arith, m.behind),
          λ j p. elim (ℕ_discrete j c) [
            | yes k ↦ rw k (ap (char_at o) (omega (arith, m.behind)) ∙ sym (m.agrees 0) ∙ e)
            | no k ↦ m.matched j (omega arith)
          ],
        ))

  -- One round, for the three ways it can go on.
  find_loop-next :
      (x : ℕ) (rest : List ℕ) (left i c : ℕ)
      → c < length fnd
      → find_loop (terminated fnd q) (length fnd) (x ∷ rest) (suc left) i c ≡ (
          let c' = if x == char_at fnd c then c + 1 else 0 in
          if c' == length fnd
          then done (u32 (i + 2 ^ 32 - length fnd + 1))
          else find_loop (terminated fnd q) (length fnd) rest left (i + 1) c')
  unfolding find_loop
  find_loop-next x rest left i c h =
      rw
        (
          load-eq-done (terminated fnd q) c 0 (rw length-append (omega arith)),
          char_at-text fnd q c h,
        )
        refl

  module _ (end : char_at o len ≡ 0) where
    -- A character that matches is no terminator, so it stands before the end of the text.
    before_end :
        {x : ℕ} {rest : List ℕ} {i c : ℕ}
        → Matching o (x ∷ rest) fnd n i c
        → x ≡ char_at fnd c
        → i ≤ len
        → i < len
    before_end {x} {i} {c} m e h = elim (ℕ_discrete i len) [
      | no ne ↦ omega arith
      | yes k ↦
          let at_i : char_at o i ≡ x = sym (m.agrees 0 ∙ ap (char_at o) (omega arith)) in
          absurd (char_at-ne_zero fnd c text m.short (sym e ∙ sym at_i ∙ ap (char_at o) k ∙ end))
    ]

    find_loop-Found :
        (rest : List ℕ) (left i c : ℕ)
        → Matching o rest fnd n i c
        → i + left ≡ len + 1
        → left ≤ length rest
        → (r : ℕ) × (find_loop (terminated fnd q) (length fnd) rest left i c ≡ done r)
          × Found o fnd len r
    find_loop-Found rest zero i c m e h = (max_u32, unfold find_loop in refl, inl refl)
    find_loop-Found [] (suc left) i c m e h = absurd (omega arith)
    find_loop-Found (x ∷ rest) (suc left) i c m e h = elim (ℕ_discrete x (char_at fnd c)) [
      | no differ ↦
          let (r, run, f) =
            find_loop-Found rest left (i + 1) 0 (Matching-reset m) (omega arith) (omega arith) in
          (r, find_loop-next x rest left i c m.short ∙ ground arith, f)
      | yes same ↦ elim (ℕ_discrete (suc c) (length fnd)) [
        | yes full ↦ (
          _,
          find_loop-next x rest left i c m.short ∙ ground arith,
          Matching-full m same full (before_end m same (omega arith)),
        )
        | no more ↦
            let (r, run, f) =
              find_loop-Found rest left (i + 1) (c + 1)
                (Matching-next m same (omega (arith, m.short))) (omega arith) (omega arith) in
            (r, find_loop-next x rest left i c m.short ∙ ground arith, f)
      ]
    ]

-- `find_in_str` on two texts, the searched one shorter than 2 ^ 32 - 1 characters and the other
-- not empty, ends without a fault; an answer other than `MAX` is the index of an occurrence.
pub find_in_str-Found :
    (o fnd r q : List ℕ)
    → IsText o
    → IsText fnd
    → length o < 2 ^ 32 - 1
    → 0 < length fnd
    → (k : ℕ) × (find_in_str (terminated o r) (terminated fnd q) ≡ done k)
      × Found (terminated o r) fnd (length o) k
unfolding find_in_str
find_in_str-Found o fnd r q ho hf small pos =
    rw (strlen_lem fnd q hf, strlen_lem o r ho)
      (find_loop-Found (terminated o r) fnd q (length o) (length (terminated o r)) hf small
        (char_at-terminated o r) (terminated o r) (length o + 1) 0 0
        (record {
          total = omega arith;
          agrees = λ j. ap (char_at (terminated o r)) (omega arith);
          short = pos;
          behind = omega arith;
          matched = λ j p. absurd (omega arith);
        })
        (omega arith) (rw length-append (omega arith)))
