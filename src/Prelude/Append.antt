-- ===== src/Prelude/Append.antt =====
-- The place between two lists, and the laws of appending.
use Prim.Native.Nat.{◌+◌}
use mathlib.Core.Path.{◌≡◌, refl}
use mathlib.Core.Option.{some, none}
use mathlib.Core.List.{List, [], ◌∷◌, ◌++◌}
use vireo_kernel.Prelude.Lists.{length, set?, length-append}
use vireo_kernel.Prelude.Steps.{load, done}

module _ {ℓ} {A : Type ℓ} where
  pub snoc_append : (xs : List A) (x : A) (ys : List A) → (xs ++ x ∷ []) ++ ys ≡ xs ++ x ∷ ys
  snoc_append [] x ys = refl
  snoc_append (y ∷ xs) x ys = rw (snoc_append xs x ys)

  pub load_middle : (xs : List A) (x : A) (ys : List A) → load (xs ++ x ∷ ys) (length xs) ≡ done x
  load_middle [] x ys = refl
  load_middle (y ∷ xs) x ys = load_middle xs x ys

  pub set?_middle :
      (xs : List A) (x y : A) (ys : List A)
      → set? (xs ++ y ∷ ys) (length xs) x ≡ some (xs ++ x ∷ ys)
  set?_middle [] x y ys = refl
  set?_middle (z ∷ xs) x y ys = rw (set?_middle xs x y ys)

  pub set?_past : (xs : List A) (x : A) → set? xs (length xs) x ≡ none
  set?_past [] x = refl
  set?_past (y ∷ xs) x = rw (set?_past xs x)

  pub length-snoc : (xs : List A) (x : A) → length (xs ++ x ∷ []) ≡ length xs + 1
  length-snoc xs x = length-append xs (x ∷ [])

  pub append_assoc : (xs ys zs : List A) → (xs ++ ys) ++ zs ≡ xs ++ (ys ++ zs)
  append_assoc [] ys zs = refl
  append_assoc (x ∷ xs) ys zs = rw (append_assoc xs ys zs)

  pub append_nil : (xs : List A) → xs ++ [] ≡ xs
  append_nil [] = refl
  append_nil (x ∷ xs) = rw (append_nil xs)
