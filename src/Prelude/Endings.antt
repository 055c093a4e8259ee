-- ===== src/Prelude/Endings.antt =====
-- Code that comes to its end: with a value or with a fault, not in an endless loop.
use Prim.Native.Nat.{ℕ}
use mathlib.Core.Path.{◌≡◌, refl}
use mathlib.Core.Logic.{◌⊎◌, inl, inr}
use mathlib.Core.Bool.{Bool, true, false}
use mathlib.Core.Option.{Option, none, some}
use mathlib.Core.List.{List}
use vireo_kernel.Prelude.Lists.{get_elem?, set?}
use vireo_kernel.Prelude.Tests.{if◌then◌else◌}
use vireo_kernel.Prelude.Steps.{Run, done, fault, ◌>>=◌, of_option, load, store}

abbrev pub Ends {ℓ} : {A : Type ℓ} → Run A → Type ℓ
Ends {A} m = ((a : A) × (m ≡ done a)) ⊎ (m ≡ fault)

pub Ends-done {ℓ} : {A : Type ℓ} {a : A} → Ends (done a)
Ends-done {a} = inl (a, refl)

pub Ends->>= {ℓ κ} :
    {A : Type ℓ} {B : Type κ} (m : Run A) {f : A → Run B}
    → Ends m
    → ((a : A) → m ≡ done a → Ends (f a))
    → Ends (m >>= f)
Ends->>= m (inl (a, e)) rest = rw e (rest a e)
Ends->>= m (inr e) rest = rw e (inr refl)

pub Ends-of_option {ℓ} : {A : Type ℓ} (o : Option A) → Ends (of_option o)
Ends-of_option none = inr refl
Ends-of_option (some a) = inl (a, refl)

pub Ends-load {ℓ} : {A : Type ℓ} (xs : List A) (i : ℕ) → Ends (load xs i)
Ends-load xs i = Ends-of_option (get_elem? xs i)

pub Ends-store {ℓ} : {A : Type ℓ} (xs : List A) (i : ℕ) (v : A) → Ends (store xs i v)
Ends-store xs i v = Ends-of_option (set? xs i v)

pub Ends-if {ℓ} :
    {A : Type ℓ} (b : Bool) {x y : Run A} → Ends x → Ends y → Ends (if b then x else y)
Ends-if true hx hy = hx
Ends-if false hx hy = hy
