-- ===== src/Prelude/Splits.antt =====
-- Lists in parts.
use Prim.Native.Nat.{ℕ, zero, suc, ◌+◌}
use mathlib.Core.Path.{◌≡◌, refl, ap}
use mathlib.Core.List.{List, [], ◌∷◌, ◌++◌}
use native.Mathlib.Omega.{arith}
use vireo_kernel.Prelude.Lists.{length, take, drop}
use vireo_kernel.Prelude.Tests.{if◌then◌else◌, ltb}

-- The smaller of two numbers, as `(len > bound) ? bound : len`.
abbrev pub at_most : ℕ → ℕ → ℕ
at_most bound len = if ltb bound len then bound else len

module _ {ℓ} {A : Type ℓ} where
  pub take-drop : (n : ℕ) (xs : List A) → take n xs ++ drop n xs ≡ xs
  take-drop zero xs = refl
  take-drop (suc n) [] = refl
  take-drop (suc n) (x ∷ xs) = rw (take-drop n xs)

  pub length-take : (n : ℕ) (xs : List A) → length (take n xs) ≡ at_most n (length xs)
  length-take zero xs = ground arith
  length-take (suc n) [] = ground arith
  length-take (suc n) (x ∷ xs) = ground (arith, length-take n xs)

  -- A list in two parts of given lengths.
  pub split :
      (n k : ℕ) (xs : List A)
      → length xs ≡ n + k
      → (ys zs : List A) × (xs ≡ ys ++ zs) × (length ys ≡ n) × (length zs ≡ k)
  split zero k xs h = ([], xs, refl, refl, omega arith)
  split (suc n) k [] h = absurd (omega arith)
  split (suc n) k (x ∷ xs) h =
      let (ys, zs, e, ly, lz) = split n k xs (omega arith) in
      (x ∷ ys, zs, ap (λ r. x ∷ r) e, ap suc ly, lz)
