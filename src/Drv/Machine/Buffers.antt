-- ===== src/Drv/Machine/Buffers.antt =====
-- Runs of bytes in a buffer.
use vireo_kernel.Prelude.{
  ℕ, ◌+◌, ◌≤◌, ◌≡◌, refl, arith, ◌∙◌, done, fault, store, List, [], ◌∷◌, ◌++◌, length, load_middle,
  set?_middle, snoc_append, length-snoc, store-eq-fault, store-eq-done, set, length-set, dec_lt,
  Ends, Ends->>=, Ends-done, Ends-store,
}
use vireo_kernel.Drv.Machine.{fetch, put_bytes}

-- The bytes take the place of as many others.
pub put_over :
    (new old pre rest : List ℕ)
    → length old ≡ length new
    → put_bytes (pre ++ (old ++ rest)) (length pre) new ≡ done (pre ++ (new ++ rest))
unfolding put_bytes
put_over [] [] pre rest same = refl
put_over [] (o ∷ old) pre rest same = absurd (omega arith)
put_over (x ∷ new) [] pre rest same = absurd (omega arith)
put_over (x ∷ new) (o ∷ old) pre rest same =
    rw
      (
        set?_middle pre x o (old ++ rest),
        ← length-snoc pre x,
        ← snoc_append pre x (old ++ rest),
        ← snoc_append pre x (new ++ rest),
      )
      (put_over new old (pre ++ (x ∷ [])) rest (omega arith))

-- The bytes between two parts.
pub fetch_all : (xs pre ys : List ℕ) → fetch (pre ++ (xs ++ ys)) (length pre) (length xs) ≡ done xs
unfolding fetch
fetch_all [] pre ys = refl
fetch_all (x ∷ xs) pre ys =
    let run : fetch (pre ++ (x ∷ (xs ++ ys))) (length pre + 1) (length xs) ≡ done xs =
      rw (snoc_append pre x (xs ++ ys), length-snoc pre x) at (fetch_all xs (pre ++ (x ∷ [])) ys) in
    rw (load_middle pre x (xs ++ ys), run)

-- Bytes that start behind the buffer.
pub put_outside :
    (buffer : List ℕ) (i x : ℕ) (xs : List ℕ)
    → length buffer ≤ i
    → put_bytes buffer i (x ∷ xs) ≡ fault
unfolding put_bytes
put_outside buffer i x xs h = rw (store-eq-fault buffer i x h)

pub length-put_bytes :
    (xs buffer out : List ℕ) (i : ℕ) → put_bytes buffer i xs ≡ done out → length out ≡ length buffer
unfolding put_bytes
length-put_bytes [] buffer out i h = let e : buffer ≡ out = cc in rw e
length-put_bytes (x ∷ xs) buffer out i h = elim (dec_lt i (length buffer)) [
  | yes inside ↦
      length-put_bytes xs (set buffer i x) out (i + 1) (rw (store-eq-done buffer i x inside) at h)
      ∙ length-set buffer i x
  | no outside ↦ absurd (let f = put_outside buffer i x xs (omega arith) in cc)
]

pub put_bytes-Ends : (xs buffer : List ℕ) (i : ℕ) → Ends (put_bytes buffer i xs)
unfolding put_bytes
put_bytes-Ends [] buffer i = Ends-done
put_bytes-Ends (x ∷ xs) buffer i =
    Ends->>= (store buffer i x) (Ends-store buffer i x) (λ b e. put_bytes-Ends xs b (i + 1))
