-- ===== src/Prelude/Words.antt =====
-- Casts to the fixed widths, shifts and the macro HOW_MANY of include/macro.h.
use Prim.Native.Nat.{ℕ, ◌+◌, ◌*◌, ◌/◌, ◌%◌, ◌^◌}
use vireo_kernel.Prelude.Tests.{◌==◌, if◌then◌else◌}

abbrev pub u8 : ℕ → ℕ
u8 n = n % 2 ^ 8

abbrev pub u16 : ℕ → ℕ
u16 n = n % 2 ^ 16

abbrev pub u32 : ℕ → ℕ
u32 n = n % 2 ^ 32

infixl 75 ◌<<<◌ ◌>>>◌
abbrev pub ◌<<<◌ : ℕ → ℕ → ℕ
x <<< k = x * 2 ^ k

abbrev pub ◌>>>◌ : ℕ → ℕ → ℕ
x >>> k = x / 2 ^ k

-- `(var / div) + (var % div != 0)`
abbrev pub how_many : ℕ → ℕ → ℕ
how_many x d = x / d + (if x % d == 0 then 0 else 1)
