-- ===== src/Prelude/Tables.antt =====
-- Statements about all bytes or bits, proved by evaluating every case, and the counted loop.
use Prim.Native.Nat.{ℕ, zero, suc, ◌+◌, ◌<◌}
use mathlib.Core.Path.{◌≡◌, refl}
use mathlib.Core.Bool.{Bool, true, false, ◌&&◌, false≢true}
use native.Mathlib.Omega.{arith}
use native.Mathlib.Decide.{dec_lt}
use vireo_kernel.Prelude.Steps.{Run, done, ◌>>=◌}

pub &&-parts : {a b : Bool} → a && b ≡ true → (a ≡ true) × (b ≡ true)
&&-parts {a = true} h = (refl, h)
&&-parts {a = false} h = absurd (false≢true h)

-- A test of the numbers below a bound, the largest last.
unfoldable pub every_below : (ℕ → Bool) → ℕ → Bool
every_below test zero = true
every_below test (suc bound) = every_below test bound && test bound

pub every_below-at :
    (test : ℕ → Bool) (bound k : ℕ) → k < bound → every_below test bound ≡ true → test k ≡ true
unfolding every_below
every_below-at test zero k below passed = absurd (omega arith)
every_below-at test (suc bound) k below passed =
    let (smaller, largest) = &&-parts {a = every_below test bound} passed in
    elim (dec_lt k bound) [
      | yes inside ↦ every_below-at test bound k inside smaller
      | no last ↦ let same : k ≡ bound = omega arith in rw same largest
    ]

-- `for(i = first; n rounds; ++i)`, where a round changes the state or ends the run.
abbrev pub rounds {ℓ} : {S : Type ℓ} → ℕ → ℕ → (ℕ → S → Run S) → S → Run S
rounds zero i body s = done s
rounds (suc n) i body s = body i s >>= λ s'. rounds n (i + 1) body s'
