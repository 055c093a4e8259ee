-- ===== src/Prelude/Steps.antt =====
-- How a piece of kernel code ends: with a value, in the endless loop of `dbg_assert` or of a
-- panic, or at an access outside the object that it is meant for, which C leaves undefined.
use Prim.Native.Nat.{ℕ, ◌<◌, ◌≤◌}
use mathlib.Core.Path.{◌≡◌, refl}
use mathlib.Core.Bool.{Bool, true, false}
use mathlib.Core.Option.{Option, none, some}
use mathlib.Core.List.{List}
use vireo_kernel.Prelude.Lists.{
  length, get_elem?, get_or, set, set?, get_elem?-eq-get_or, set?-eq-set, set?-eq-none,
  get_elem?-eq-none,
}

pub data Run {ℓ} (A : Type ℓ) : Type ℓ where
  done : A → Run A
  stop : Run A
  fault : Run A

infixl 5 ◌>>=◌ ◌>>◌
abbrev pub ◌>>=◌ {ℓ κ} : {A : Type ℓ} {B : Type κ} → Run A → (A → Run B) → Run B
done a >>= f = f a
stop >>= f = stop
fault >>= f = fault

abbrev pub ◌>>◌ {ℓ} : {B : Type ℓ} → Run (Unit {0}) → Run B → Run B
m >> k = m >>= λ _. k

-- `dbg_assert(e)` of dbg/dbg.h
abbrev pub dbg_assert : Bool → Run (Unit {0})
dbg_assert true = done tt
dbg_assert false = stop

abbrev pub of_option {ℓ} : {A : Type ℓ} → Option A → Run A
of_option none = fault
of_option (some a) = done a

-- `xs[i]`
abbrev pub load {ℓ} : {A : Type ℓ} → List A → ℕ → Run A
load xs i = of_option (get_elem? xs i)

-- `xs[i] = v`
abbrev pub store {ℓ} : {A : Type ℓ} → List A → ℕ → A → Run (List A)
store xs i v = of_option (set? xs i v)

pub load-eq-done {ℓ} :
    {A : Type ℓ} (xs : List A) (i : ℕ) (d : A) → i < length xs → load xs i ≡ done (get_or xs i d)
load-eq-done xs i d h = rw (get_elem?-eq-get_or xs i d h)

pub store-eq-done {ℓ} :
    {A : Type ℓ} (xs : List A) (i : ℕ) (v : A) → i < length xs → store xs i v ≡ done (set xs i v)
store-eq-done xs i v h = rw (set?-eq-set xs i v h)

pub store-eq-fault {ℓ} :
    {A : Type ℓ} (xs : List A) (i : ℕ) (v : A) → length xs ≤ i → store xs i v ≡ fault
store-eq-fault xs i v h = rw (set?-eq-none xs i v h)

pub load-eq-fault {ℓ} : {A : Type ℓ} (xs : List A) (i : ℕ) → length xs ≤ i → load xs i ≡ fault
load-eq-fault xs i h = rw (get_elem?-eq-none xs i h)

-- Inversion of a sequence that ends with a value.
pub >>=-eq-done {ℓ κ} :
    {A : Type ℓ} {B : Type κ} (m : Run A) (f : A → Run B) {b : B}
    → (m >>= f) ≡ done b
    → (a : A) × (m ≡ done a) × (f a ≡ done b)
>>=-eq-done (done a) f h = (a, refl, h)
>>=-eq-done stop f h = cc
>>=-eq-done fault f h = cc
