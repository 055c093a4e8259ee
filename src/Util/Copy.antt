-- ===== src/Util/Copy.antt =====
-- util/util.c: `memcpy` over the front of a buffer.
use vireo_kernel.Prelude.{
  ℕ, ◌+◌, ◌≡◌, refl, sym, ◌∙◌, arith, done, load, List, [], ◌∷◌, ◌++◌, length, load_middle,
  set?_middle, snoc_append, length-snoc, ◌-◌, ◌≤◌, ap, Option, some, split, length-append,
}
use vireo_kernel.Util.{memcpy_from, memcpy, create_backup_str}
use vireo_kernel.Util.Strings.{IsText, strlen_lem}

-- `memcpy` over a part of the destination.
memcpy_from_over :
    (new old pre pre' rest more : List ℕ)
    → length old ≡ length new
    → length pre ≡ length pre'
    → memcpy_from (pre ++ (old ++ rest)) (pre' ++ (new ++ more)) (length new) (length pre)
      ≡ done (pre ++ (new ++ rest))
unfolding memcpy_from
memcpy_from_over [] [] pre pre' rest more same at = refl
memcpy_from_over [] (o ∷ old) pre pre' rest more same at = absurd (omega arith)
memcpy_from_over (x ∷ new) [] pre pre' rest more same at = absurd (omega arith)
memcpy_from_over (x ∷ new) (o ∷ old) pre pre' rest more same at =
    let run =
      memcpy_from_over new old (pre ++ (x ∷ [])) (pre' ++ (x ∷ [])) rest more (omega arith)
        (omega (arith, length-snoc pre x, length-snoc pre' x)) in
    let here : load (pre' ++ (x ∷ (new ++ more))) (length pre) ≡ done x =
      rw at (load_middle pre' x (new ++ more)) in
    rw
      (
        here,
        set?_middle pre x o (old ++ rest),
        ← length-snoc pre x,
        ← snoc_append pre x (old ++ rest),
        ← snoc_append pre' x (new ++ more),
        ← snoc_append pre x (new ++ rest),
      )
      run

-- The first part of the destination is replaced by the source, the rest is kept.
pub memcpy_over :
    (new old rest more : List ℕ)
    → length old ≡ length new
    → memcpy (old ++ rest) (new ++ more) (length new) ≡ done (new ++ rest)
unfolding memcpy
memcpy_over new old rest more same = memcpy_from_over new old [] [] rest more same refl

-- The same for buffers that are given by their parts.
pub memcpy_parts :
    (buffer source new old rest more : List ℕ) (n : ℕ)
    → buffer ≡ old ++ rest
    → source ≡ new ++ more
    → length old ≡ n
    → length new ≡ n
    → memcpy buffer source n ≡ done (new ++ rest)
memcpy_parts buffer source new old rest more n eb es lo ln =
    rw (eb, es, ← ln) (memcpy_over new old rest more (lo ∙ sym ln))

-- The copy of a text, in a block that is large enough.
pub create_backup_str_lem :
    (kmalloc : ℕ → Option (List ℕ)) (s rest block : List ℕ)
    → IsText s
    → kmalloc (length s + 1) ≡ some block
    → length s + 1 ≤ length block
    → (more : List ℕ) × (create_backup_str kmalloc (s ++ (0 ∷ rest))
        ≡ done (some (s ++ (0 ∷ more))))
unfolding create_backup_str
create_backup_str_lem kmalloc s rest block text granted room =
    let (old, more, e, lo, lm) =
      split (length s + 1) (length block - (length s + 1)) block (omega arith) in
    let size = length-append s (0 ∷ []) in
    let copied : memcpy block (s ++ (0 ∷ rest)) (length s + 1) ≡ done ((s ++ (0 ∷ [])) ++ more) =
      memcpy_parts block (s ++ (0 ∷ rest)) (s ++ (0 ∷ [])) old more rest (length s + 1) e
        (sym (snoc_append s 0 rest)) lo size in
    (
      more,
      rw (strlen_lem s rest text, granted, copied)
          (ap (λ (t : List ℕ). done (some t)) (snoc_append s 0 more)),
    )
