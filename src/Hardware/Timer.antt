-- ===== src/Hardware/Timer.antt =====
-- hardware/timer.c: the tick counter.
use vireo_kernel.Prelude.{ℕ, zero, suc, ◌+◌, ◌%◌, ◌≡◌, refl, arith, if◌then◌else◌, ◌==◌, u32}

abbrev pub max_ticks : ℕ
max_ticks = 0xffffffff

-- `if(++ticks == MAX) ticks = 0;`
unfoldable pub timer_inc_ticks : ℕ → ℕ
timer_inc_ticks ticks = let t = u32 (ticks + 1) in if t == max_ticks then 0 else t

-- The counter after `n` timer interrupts from the start of the kernel.
abbrev pub ticks_after : ℕ → ℕ
ticks_after zero = 0
ticks_after (suc n) = timer_inc_ticks (ticks_after n)

-- The counter counts the interrupts modulo 2 ^ 32 - 1 and so never takes the value `MAX`.
pub ticks_after_lem : (n : ℕ) → ticks_after n ≡ n % max_ticks
unfolding timer_inc_ticks
ticks_after_lem zero = refl
ticks_after_lem (suc n) = ground (arith, ticks_after_lem n)
